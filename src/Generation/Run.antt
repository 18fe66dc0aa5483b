-- ===== src/Generation/Run.antt =====
-- `run` of app/services/generation.py: a material is read, judged by the gate, and made into a set of
-- questions. What the object store holds, the provider of models, the converter of office documents and
-- the identifiers of new rows are parameters. The text of an exception is left out of a reason.
use brainxp_server.Documents.{to_attachment_bytes}
use brainxp_server.Generation.{GeneratedQuestion, dedupe, keep}
use brainxp_server.Generation.Outside.{Attachment, GateVerdict, Outside}
use brainxp_server.Generation.Seen.{near_duplicate_penalty, times_studied}
use brainxp_server.Ledger.{policy_of}
use brainxp_server.Prelude.{
  Bool, List, Option, String, [], false, if◌then◌else◌, length, map, none, some, str_eq, suc, true,
  zero, ℕ, ◌++◌, ◌+◌, ◌==◌, ◌∷◌,
}
use brainxp_server.Prelude.Exec.{
  Exec, Result, err, fetch, gets, internal, ok, or_raise, ◌>>=◌, ◌>>◌,
}
use brainxp_server.Prelude.Int.{leb_ℤ, pos, pos_part, ℤ}
use brainxp_server.Prelude.Rows.{first_where, rows_where, update_where}
use brainxp_server.Quizzes.{in_set}
use brainxp_server.Quizzes.Opening.{material_id_of}
use brainxp_server.Rules.Float.{Float}
use brainxp_server.Rules.Gate.{
  GateOutcome, RejectReason, bloom_floor_met, evaluate_gate, level_too_low, not_study_material,
  too_thin,
}
use brainxp_server.Rules.Reward.{session_mix}
use brainxp_server.Storage.{
  World, at_failed, at_partial, at_reading, at_ready, at_rejected, at_validating, change_db, delete,
  publish,
}
use brainxp_server.Tables.Activity.{Policy}
use brainxp_server.Tables.Study.{
  Material, MaterialStatus, Question, QuestionSet, StorageKey, failed, generating, ready, rejected,
  validating,
}

abbrev pub visibility_tries : ℕ
visibility_tries = 12

-- `_await_material`: what each look at the table yields, until one finds the row.
unfoldable pub await_material : ℕ → ℕ → (ℕ → Option Material) → Option Material
await_material zero i sight = none
await_material (suc n) i sight = elim (sight i) [
  | some m ↦ some m
  | none ↦ await_material n (i + 1) sight
]

unfoldable pub reason_code : RejectReason → String
reason_code level_too_low = "level_too_low"
reason_code too_thin = "too_thin"
reason_code not_study_material = "not_study_material"

abbrev pub failed_for : String → Material → Material
failed_for reason m = record m { status = failed; gate_reason = some reason }

abbrev pub with_status : MaterialStatus → Material → Material
with_status s m = record m { status = s }

abbrev pub without_file : ℕ → Material → Material
without_file at m = record m { storage_key = none; purged_at = some at }

abbrev pub update_material : ℕ → (Material → Material) → Exec World Unit
update_material id f =
    change_db (λ db. record db { materials = update_where (material_id_of id) f db.materials })

unfoldable pub fail : ℕ → String → Exec World Unit
fail id reason = do update_material id (failed_for reason); publish id at_failed

-- `_rows_for`, with the identifier that each row is given.
unfoldable pub rows_for : (ℕ → ℕ) → ℕ → ℕ → List GeneratedQuestion → List Question
rows_for fresh set n [] = []
rows_for fresh set n (q ∷ qs) =
    record {
      id = fresh n;
      question_set_id = set;
      ordinal = n;
      qtype = q.qtype;
      stem = q.stem;
      options = q.options;
      correct_index = elim q.correct_index [ none ↦ none | some k ↦ some (pos_part k) ];
      rubric = q.rubric;
      reference_answer = q.reference_answer;
      source_excerpt = q.source_excerpt;
      explanation = some q.explanation;
      difficulty = q.difficulty;
      bloom_level = q.bloom_level;
    }
    ∷ rows_for fresh set (n + 1) qs

abbrev pub set_of : ℕ → QuestionSet → Bool
set_of id s = s.id == id

abbrev pub new_set : ℕ → ℕ → String → ℤ → ℕ → QuestionSet
new_set id material model want at = record {
  id = id;
  material_id = material;
  model_id = model;
  requested_count = want;
  ready_count = 0;
  status = "partial";
  generated_at = at;
}

module _ (F : Float) (Bytes : Type 0) where
  open F use {Number, ratio, lt}

  module _ (out : Outside F Bytes) where
    -- `storage.get` and `to_attachment_bytes`; without a key the first raises.
    abbrev pub read_material : Material → Result (Attachment F Bytes)
    read_material mat = elim mat.storage_key [
      | none ↦ err internal
      | some key ↦ elim (out.contents key) [
        | err e ↦ err e
        | ok raw ↦ to_attachment_bytes out.lower out.office_to_pdf raw mat.source_type
      ]
    ]

    abbrev pub judged : GateVerdict F Bytes → GateOutcome F → Material → Material
    judged v gate m = record m {
      assessed_level = some v.assessed_level;
      detected_language = some v.detected_language;
      topic_summary = some v.topic_summary;
      gate_verdict = some (if gate.accepted then "accepted" else "rejected");
      gate_reason = elim gate.reject_reason [
        | some r ↦ some (reason_code r)
        | none ↦ if str_eq gate.note "" then none else some gate.note
      ];
      status = if gate.accepted then generating else rejected;
    }

    -- The file of a rejected material is removed.
    unfoldable pub purge : ℕ → Option StorageKey → ℕ → Exec World Unit
    purge id none at w = ok (tt, w)
    purge id (some key) at w = (do delete out.store key; update_material id (without_file at)) w

    -- The questions are there: they are stored and the set and the material are ready.
    unfoldable pub finish : ℕ → Policy → ℕ → List GeneratedQuestion → Exec World Unit
    unfolding rows_for
    finish id pol set kept = do
      change_db (λ db. record db { questions = db.questions ++ rows_for out.fresh set 0 kept })
      change_db (λ db. record db {
        question_sets =
            update_where (set_of set) (λ s. record s { ready_count = length kept })
              db.question_sets;
      })
      publish id (at_partial (length kept))
      blooms ← (λ w.
          gets
            (λ (w : World).
              map (λ (q : Question). q.bloom_level) (rows_where (in_set set) w.db.questions))
            w)
      let floor_ok = bloom_floor_met F blooms pol.academic_level
      let complete = leb_ℤ pol.questions_per_session (pos (length kept))
      change_db (λ db. record db {
        question_sets =
            update_where (set_of set)
              (λ s. record s { status = if complete then "complete" else "degraded" })
              db.question_sets;
      })
      update_material id (with_status ready)
      publish id (at_ready (length kept) floor_ok)

    -- The set of an accepted material.
    unfoldable pub generate : ℕ → Policy → Attachment F Bytes → ℕ → ℕ → Exec World Unit
    unfolding fail finish
    generate id pol att set at = do
      let want = pol.questions_per_session
      let essays = (session_mix F (pos_part want) (ratio pol.essay_ratio 100)).1
      change_db (λ db. record db {
        question_sets =
            db.question_sets ++ new_set set id out.provider.generation_model want at ∷ [];
      })
      elim (out.provider.generate_questions att want essays pol.academic_level
          pol.question_language) [
            | err e ↦ fail id "Soal tidak dapat dibuat"
            | ok batch ↦
                let kept = dedupe F out.likeness (keep out.lower batch) in
                if length kept == 0
                then fail id "Tidak ada soal yang lolos validasi dari materi ini."
                else finish id pol set kept
          ]

    -- What follows the gate.
    abbrev pub follow :
        ℕ → Material → Policy → Attachment F Bytes → ℕ → ℕ → GateOutcome F → Exec World Unit
    follow id mat pol att set at gate = elim gate.accepted [
      | true ↦ generate id pol att set at
      | false ↦ do purge id mat.storage_key at; publish id (at_rejected gate.reject_reason)
    ]

    -- What follows the verdict on a material.
    unfoldable pub judge :
        ℕ → Material → Policy → Attachment F Bytes → GateVerdict F Bytes → ℕ → ℕ → Exec World Unit
    unfolding purge generate times_studied near_duplicate_penalty
    judge id mat pol att v set at w =
        let seen =
          times_studied mat.subject_id mat.content_sha256 w.db
          + near_duplicate_penalty F Bytes out mat.subject_id v.topic_summary id w.db in
        let gate =
          evaluate_gate F pol.academic_level v.assessed_level v.concept_density v.is_study_material
            (pos seen) in
        (do update_material id (judged v gate); follow id mat pol att set at gate) w

    unfoldable pub run : ℕ → (ℕ → Option Material) → ℕ → ℕ → Exec World Unit
    unfolding await_material judge
    run id sight set at = do
      mat ← or_raise (await_material visibility_tries 0 sight) internal
      pol ← fetch (λ w. first_where (policy_of mat.subject_id) w.db.policies) internal
      publish id at_reading
      elim (read_material mat) [
        | err e ↦ fail id "Berkas tidak dapat dibaca"
        | ok att ↦ do
          update_material id (with_status validating)
          publish id at_validating
          elim (out.provider.validate_material att pol.academic_level) [
            | err e ↦ fail id "Materi tidak dapat diperiksa"
            | ok v ↦ judge id mat pol att v set at
          ]
      ]
