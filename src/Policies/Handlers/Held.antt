-- ===== src/Policies/Handlers/Held.antt =====
-- What the policy endpoints keep, within a day of a moment when nothing waited.
use mathlib.Core.Path.{subst}
use brainxp_server.Deps.{Caller, authorize_subject, is_child, require_policy_writer}
use brainxp_server.Deps.Access.{authorize_subject_iff}
use brainxp_server.Ledger.{policy_of}
use brainxp_server.Policies.{Ratios}
use brainxp_server.Policies.Handlers.{
  PolicyChangeOut, apply_pending, cancel_pending, is_personal, lock_app, put_policy, set_policy,
  unlock_app,
}
use brainxp_server.Policies.Handlers.Guarded.{Guarded, IsBody}
use brainxp_server.Prelude.{Option-cases, String, inl, inr, some, sym, true, ℕ, ◌==◌, ◌≡◌}
use brainxp_server.Prelude.Exec.{Exec, forbidden, pure, raise_if}
use brainxp_server.Prelude.Rows.{first_where, first_where-update_where, first_where_test, map_some}
use brainxp_server.Prelude.Triple.{Post, Post-map, Triple, Triple-bind, raise_if-keeps}
use brainxp_server.Tables.{Db}
use brainxp_server.Tables.Activity.{Changes, Policy}
use brainxp_server.Tables.People.{Subject}

-- The row of a personal profile is guarded.
abbrev pub Held : Policy → ℕ → ℕ → Db → Type 0
Held start since subject db =
    ((s : Subject) → first_where (λ r. r.id == subject) db.subjects ≡ some s → is_personal s ≡ true)
    × ((p : Policy) → first_where (policy_of subject) db.policies ≡ some p → Guarded start since p)

-- A policy endpoint at a moment.
pub data PolicyRequest : Type 0 where
  put : (c : Changes) → IsBody c → PolicyRequest
  apply_now cancel : PolicyRequest
  lock unlock : String → PolicyRequest

abbrev pub serve_policy : Ratios → Caller → ℕ → PolicyRequest → ℕ → Exec Db PolicyChangeOut
serve_policy R me subject (put c b) at = put_policy R me subject c at
serve_policy R me subject apply_now at = apply_pending R me subject at
serve_policy R me subject cancel at = cancel_pending me subject at
serve_policy R me subject (lock x) at = lock_app me subject x at
serve_policy R me subject (unlock x) at = unlock_app me subject x at

module _ (start : Policy) (since subject : ℕ) where
  pub writer-keeps :
      (me : Caller)
      → Triple
          (Held start since subject)
          (require_policy_writer me subject)
          (λ _. Held start since subject)
  unfolding require_policy_writer
  writer-keeps me =
      Triple-bind (Held start since subject) (authorize_subject me subject) _
        (λ _. Held start since subject) _
        (λ db h.
          Post-map _ _ (authorize_subject me subject db) (λ row db' p. rw p.0 h)
            (authorize_subject_iff me subject db).0)
        (λ row.
          Triple-bind (Held start since subject) (raise_if (is_child me) forbidden) (λ _. pure row)
            (λ _. Held start since subject) _
            (raise_if-keeps (Held start since subject) (is_child me) forbidden) (λ _ db h. h))

  -- A write of a guarded row for the one that was read.
  pub write-Held :
      (f : Policy → Policy) (db : Db)
      → Held start since subject db
      → ((p : Policy)
          → first_where (policy_of subject) db.policies ≡ some p
          → Guarded start since (f p))
      → ((p : Policy) → policy_of subject p ≡ true → policy_of subject (f p) ≡ true)
      → Post (λ _. Held start since subject) (set_policy subject f db)
  write-Held f db h guarded same = (
    h.0,
    λ p found.
        let e : map_some f (first_where (policy_of subject) db.policies) ≡ some p =
          rw (sym (first_where-update_where (policy_of subject) f db.policies same)) found in
        elim (Option-cases (first_where (policy_of subject) db.policies)) [
          | inl missing ↦ cc (missing, e)
          | inr (q, there) ↦
              let fits : f q ≡ p = cc (there, e) in
              subst (Guarded start since) fits (guarded q there)
        ],
  )

  -- The row that was read, written back changed.
  pub row-Held :
      (g : Policy → Policy) (row : Policy) (db : Db)
      → first_where (policy_of subject) db.policies ≡ some row
      → Held start since subject db
      → Guarded start since (g row)
      → (g row).subject_id ≡ row.subject_id
      → Post (λ _. Held start since subject) (set_policy subject (λ _. g row) db)
  row-Held g row db found h guarded same =
      let passes : policy_of subject (g row) ≡ true =
        rw same (first_where_test (policy_of subject) db.policies row found) in
      write-Held (λ _. g row) db h (λ p there. guarded) (λ p there. passes)
