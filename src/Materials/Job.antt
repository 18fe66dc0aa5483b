-- ===== src/Materials/Job.antt =====
-- The files in the store under the job of app/services/generation.py.
use brainxp_server.Families.{named}
use brainxp_server.Generation.{GeneratedQuestion, dedupe, keep}
use brainxp_server.Generation.Outside.{Attachment, GateVerdict, Outside}
use brainxp_server.Generation.Run.{
  await_material, fail, failed_for, finish, follow, generate, judge, judged, purge, read_material,
  run, update_material, visibility_tries, with_status, without_file,
}
use brainxp_server.Generation.Seen.{near_duplicate_penalty, times_studied}
use brainxp_server.Ledger.{policy_of}
use brainxp_server.Materials.Filed.{IsFiled, update-IsFiled}
use brainxp_server.Materials.Kept.{Claim, Filed, Met, forget-Filed}
use brainxp_server.Prelude.{
  Bool-cases, List, Option, Option-cases, String, ap, if◌then◌else◌, inl, inr, length, ltb, none,
  refl, some, suc, true, zero, ℕ, ◌+◌, ◌==◌, ◌∙◌, ◌∷◌, ◌≡◌, ◌⊎◌,
}
use brainxp_server.Prelude.Exec.{Result-cases, err, ok, ◌>>◌}
use brainxp_server.Prelude.Int.{pos, pos_part}
use brainxp_server.Prelude.Rows.{first_where, first_where-update_where, map_some}
use brainxp_server.Prelude.Triple.{Post, Post-bind, Triple}
use brainxp_server.Quizzes.Opening.{material_id_of}
use brainxp_server.Rules.Float.{Float}
use brainxp_server.Rules.Gate.{GateOutcome, evaluate_gate}
use brainxp_server.Rules.Reward.{session_mix}
use brainxp_server.Storage.{World, at_reading, at_validating, delete, publish}
use brainxp_server.Tables.Activity.{Policy}
use brainxp_server.Tables.Study.{Material, StorageKey, ready, validating}

-- The row is there, it names the file that the job read, and the files are in order.
abbrev pub Named : ℕ → Option StorageKey → Claim
Named id key ms stored =
    (m : Material) × (first_where (material_id_of id) ms ≡ some m)
    × (m.storage_key ≡ key)
    × IsFiled ms stored

abbrev SameFile : (Material → Material) → Type 0
SameFile f =
    (x : Material)
    → ((f x).id ≡ x.id) × ((f x).storage_key ≡ x.storage_key) × ((f x).deleted_at ≡ x.deleted_at)

update-Named :
    (id : ℕ) (key : Option StorageKey) (f : Material → Material)
    → SameFile f
    → Triple (Met (Named id key)) (update_material id f) (λ _. Met (Named id key))
update-Named id key f same w (m, row, named, h) = (
  f m,
  first_where-update_where (material_id_of id) f w.db.materials (λ x t. rw (same x).0 t)
      ∙ ap (map_some f) row,
  (same m).1 ∙ named,
  update-IsFiled id f w.db.materials w.stored same h,
)

module _ (F : Float) (Bytes : Type 0) (out : Outside F Bytes)
    (is_on : out.store.enabled ≡ true) where
  fail-Filed : (id : ℕ) (reason : String) → Triple Filed (fail id reason) (λ _. Filed)
  unfolding fail publish
  fail-Filed id reason w h =
      update-IsFiled id (failed_for reason) w.db.materials w.stored (λ x. (refl, refl, refl)) h

  finish-Filed :
      (id : ℕ) (pol : Policy) (set : ℕ) (kept : List GeneratedQuestion)
      → Triple Filed (finish F Bytes out id pol set kept) (λ _. Filed)
  unfolding finish publish
  finish-Filed id pol set kept w h =
      update-IsFiled id (with_status ready) w.db.materials w.stored (λ x. (refl, refl, refl)) h

  generate-Filed :
      (id : ℕ) (pol : Policy) (att : Attachment F Bytes) (set at : ℕ)
      → Triple Filed (generate F Bytes out id pol att set at) (λ _. Filed)
  unfolding generate
  generate-Filed id pol att set at w h =
      let want = pol.questions_per_session in
      let essays = (session_mix F (pos_part want) (F.ratio pol.essay_ratio 100)).1 in
      elim (Result-cases (
        out.provider.generate_questions att want essays pol.academic_level pol.question_language)) [
          | inr (x, e) ↦ rw (e, generate) (fail-Filed id "Soal tidak dapat dibuat" _ h)
          | inl (batch, e) ↦
              let kept = dedupe F out.likeness (keep out.lower batch) in
              elim (Bool-cases (length kept == 0)) [
                | inl b ↦
                    rw (e, b, generate)
                      (fail-Filed id "Tidak ada soal yang lolos validasi dari materi ini." _ h)
                | inr b ↦ rw (e, b, generate) (finish-Filed id pol set kept _ h)
              ]
        ]

  purge-Filed :
      (id : ℕ) (key : Option StorageKey) (at : ℕ)
      → Triple (Met (Named id key)) (purge F Bytes out id key at) (λ _. Filed)
  unfolding purge delete
  purge-Filed id none at w (m, row, named, h) = h
  purge-Filed id (some key) at w (m, row, named, h) =
      let left = forget-Filed id (without_file at) m w (λ x. (refl, refl)) row h in
      elim (Bool-cases (out.store.deletes key)) [
        | inl d ↦ rw (purge, delete, is_on, d) (rw named at left)
        | inr d ↦ rw (purge, delete, is_on, d) tt
      ]

  follow-Filed :
      (id : ℕ) (mat : Material) (pol : Policy) (att : Attachment F Bytes) (set at : ℕ)
      (gate : GateOutcome F)
      → Triple
          (Met (Named id mat.storage_key))
          (follow F Bytes out id mat pol att set at gate)
          (λ _. Filed)
  unfolding publish
  follow-Filed id mat pol att set at gate w q = elim (Bool-cases gate.accepted) [
    | inl e ↦ rw (e, follow) (generate-Filed id pol att set at w q.3)
    | inr e ↦
        rw (e, follow)
          (Post-bind (purge F Bytes out id mat.storage_key at) _ w (λ _. Filed) (λ _. Filed)
            (purge-Filed id mat.storage_key at w q) (λ _ w' h. h))
  ]

  judge-Filed :
      (id : ℕ) (mat : Material) (pol : Policy) (att : Attachment F Bytes) (v : GateVerdict F Bytes)
      (set at : ℕ)
      → Triple
          (Met (Named id mat.storage_key))
          (judge F Bytes out id mat pol att v set at)
          (λ _. Filed)
  unfolding judge
  judge-Filed id mat pol att v set at w q =
      let seen =
        times_studied mat.subject_id mat.content_sha256 w.db
        + near_duplicate_penalty F Bytes out mat.subject_id v.topic_summary id w.db in
      let gate =
        evaluate_gate F pol.academic_level v.assessed_level v.concept_density v.is_study_material
          (pos seen) in
      let change = judged F Bytes out v gate in
      follow-Filed id mat pol att set at gate _
        (update-Named id mat.storage_key change (λ x. (refl, refl, refl)) w q)

  -- The job once its row, its policy and its file are there.
  checked-Filed :
      (id : ℕ) (mat : Material) (pol : Policy) (att : Attachment F Bytes) (set at : ℕ) (w : World)
      → Met (Named id mat.storage_key) w
      → Post
          (λ _. Filed)
          ((do
            update_material id (with_status validating)
            publish id at_validating
            elim (out.provider.validate_material att pol.academic_level) [
              | err e ↦ fail id "Materi tidak dapat diperiksa"
              | ok v ↦ judge F Bytes out id mat pol att v set at
            ])
            w)
  unfolding publish
  checked-Filed id mat pol att set at w q =
      let after =
        update-Named id mat.storage_key (with_status validating) (λ x. (refl, refl, refl)) w q in
      elim (Result-cases (out.provider.validate_material att pol.academic_level)) [
        | inr (x, e) ↦ rw e (fail-Filed id "Materi tidak dapat diperiksa" _ after.3)
        | inl (v, e) ↦ rw e (judge-Filed id mat pol att v set at _ after)
      ]

  -- The job, if it sees the row of the material as it is, or none.
  pub run-Filed :
      (id : ℕ) (sight : ℕ → Option Material) (set at : ℕ) (w : World)
      → (await_material visibility_tries 0 sight ≡ none)
        ⊎ (await_material visibility_tries 0 sight ≡ first_where (material_id_of id) w.db.materials)
      → Filed w
      → Post (λ _. Filed) (run F Bytes out id sight set at w)
  unfolding run publish
  run-Filed id sight set at w (inl nothing) h = rw nothing tt
  run-Filed id sight set at w (inr same) h =
      elim (Option-cases (first_where (material_id_of id) w.db.materials)) [
        | inl e ↦ rw (same, e) tt
        | inr (mat, e) ↦
            rw (same, e)
              (elim (Option-cases (first_where (policy_of mat.subject_id) w.db.policies)) [
                | inl n ↦ rw n tt
                | inr (pol, p) ↦
                    let read = record w { published = (id, at_reading) ∷ w.published } in
                    rw p (elim (Result-cases (read_material F Bytes out mat)) [
                      | inr (x, r) ↦ rw r (fail-Filed id "Berkas tidak dapat dibaca" read h)
                      | inl (att, r) ↦
                          rw r (checked-Filed id mat pol att set at read (mat, e, refl, h))
                    ])
              ])
      ]

-- A row that shows up after some looks.
abbrev pub shown_after : ℕ → Option Material → ℕ → Option Material
shown_after delay row i = if ltb i delay then none else row

pub await_material_cases :
    (delay : ℕ) (row : Option Material) (n i : ℕ)
    → (await_material n i (shown_after delay row) ≡ none)
      ⊎ (await_material n i (shown_after delay row) ≡ row)
unfolding await_material
await_material_cases delay row zero i = inl refl
await_material_cases delay none (suc n) i = elim (Bool-cases (ltb i delay)) [
  | inl b ↦ rw (b, await_material) (await_material_cases delay none n (i + 1))
  | inr b ↦ rw (b, await_material) (await_material_cases delay none n (i + 1))
]
await_material_cases delay (some m) (suc n) i = elim (Bool-cases (ltb i delay)) [
  | inl b ↦ rw (b, await_material) (await_material_cases delay (some m) n (i + 1))
  | inr b ↦ rw (b, await_material) (inr refl)
]
