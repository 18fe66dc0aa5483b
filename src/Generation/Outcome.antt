-- ===== src/Generation/Outcome.antt =====
-- What the job of app/services/generation.py may leave: an end that is published, or an error.
use brainxp_server.Generation.{GeneratedQuestion}
use brainxp_server.Generation.Apart.{AreApart}
use brainxp_server.Generation.Fit.{IsFit}
use brainxp_server.Generation.Outside.{Attachment, GateVerdict, Outside}
use brainxp_server.Generation.Run.{read_material, rows_for}
use brainxp_server.Prelude.{
  All, List, Option, false, length, none, some, true, ℕ, ◌++◌, ◌<◌, ◌∷◌, ◌≡◌,
}
use brainxp_server.Prelude.Exec.{AppError, Result, err, internal, ok}
use brainxp_server.Prelude.Int.{pos}
use brainxp_server.Prelude.Rows.{first_where}
use brainxp_server.Quizzes.Opening.{material_id_of}
use brainxp_server.Rules.Float.{Float}
use brainxp_server.Rules.Gate.{evaluate_gate}
use brainxp_server.Storage.{
  Stage, World, at_failed, at_partial, at_reading, at_ready, at_rejected, at_validating,
}
use brainxp_server.Tables.Activity.{Policy}
use brainxp_server.Tables.Study.{
  Material, MaterialStatus, Question, StorageKey, failed, generating, ready, rejected, uploaded,
  validating,
}

abbrev pub Row : ℕ → Material → World → Type 0
Row id m w = first_where (material_id_of id) w.db.materials ≡ some m

-- The stages after which a listener stops, with the status that they stand for.
abbrev pub terminal : Stage → Option MaterialStatus
terminal at_failed = some failed
terminal (at_rejected reason) = some rejected
terminal (at_ready count floor_ok) = some ready
terminal at_reading = none
terminal at_validating = none
terminal (at_partial count) = none

-- How a run may come to an error.
abbrev pub Fault : Type 1
Fault = AppError → Type 0

module _ (F : Float) (Bytes : Type 0) (out : Outside F Bytes) where
  -- The questions that a job added, if its material became ready: at least one, all fit, none too close
  -- to an earlier one; and none otherwise.
  abbrev pub IsMade : ℕ → List Question → MaterialStatus → List Question → Type 0
  IsMade set before ready after =
      (kept : List GeneratedQuestion) × (after ≡ before ++ rows_for out.fresh set 0 kept)
      × (0 < length kept)
      × All (IsFit out.lower) kept
      × AreApart F out.likeness kept
  IsMade set before uploaded after = after ≡ before
  IsMade set before validating after = after ≡ before
  IsMade set before rejected after = after ≡ before
  IsMade set before generating after = after ≡ before
  IsMade set before failed after = after ≡ before

  -- The material is there, and the last thing published is a final stage, which is the material's status.
  pub record IsEnded (set : ℕ) (questions : List Question) (id : ℕ) (w : World) : Type 0 where
    pub material : Material
    pub row : Row id material w
    pub stage : Stage
    pub before : List (ℕ × Stage)
    pub announced : w.published ≡ (id, stage) ∷ before
    pub final : terminal stage ≡ some material.status
    pub made : IsMade set questions material.status w.db.questions

  abbrev pub Ends : ℕ → List Question → ℕ → Fault → Result (Unit {0} × World) → Type 0
  Ends set questions id E (ok (u, w)) = IsEnded set questions id w
  Ends set questions id E (err e) = E e

  -- The store does not delete the file.
  abbrev pub IsStuck : Option StorageKey → Type 0
  IsStuck file =
      (key : StorageKey) × (file ≡ some key)
      × (out.store.enabled ≡ true)
      × (out.store.deletes key ≡ false)

  -- The provider's verdict on the file has the material rejected, for some count of how often the profile
  -- has seen it, and the store does not delete the file.
  abbrev pub IsUndeleted : Material → Policy → Fault
  IsUndeleted mat pol e =
      (e ≡ internal)
      × IsStuck mat.storage_key
      × (att : Attachment F Bytes) × (v : GateVerdict F Bytes) × (seen : ℕ) × (read_material F Bytes
            out mat
          ≡ ok att)
      × (out.provider.validate_material att pol.academic_level ≡ ok v)
      × ((evaluate_gate F pol.academic_level v.assessed_level v.concept_density v.is_study_material
            (pos seen)).accepted
          ≡ false)
