-- ===== src/Policies/Handlers/Kept.antt =====
-- What every policy endpoint keeps, within a day of a moment when nothing waited.
use brainxp_server.Deps.{Caller, require_policy_writer}
use brainxp_server.Ledger.{policy_of}
use brainxp_server.Policies.{IsRatios, Ratios, apply_changes, is_in, weaken_delay}
use brainxp_server.Policies.Handlers.{
  PolicyChangeOut, apply_pending, cancel_pending, cancelled, is_empty, is_personal, lock_app,
  locked, pending_change, policy_row, postpone, put_change, put_policy, subject_row, unlock_app,
  unlock_change,
}
use brainxp_server.Policies.Handlers.Guarded.{
  IsBody, cancelled-Guarded, locked-Guarded, pending_change_waits, put_change-Guarded,
  unlock_change-Guarded,
}
use brainxp_server.Policies.Handlers.Held.{
  Held, PolicyRequest, apply_now, cancel, lock, put, row-Held, serve_policy, unlock, write-Held,
  writer-keeps,
}
use brainxp_server.Prelude.{
  Bool, Bool-cases, String, arith, inl, inr, refl, some, true, ℕ, ◌+◌, ◌<◌, ◌==◌, ◌≡◌, ◌≤◌,
}
use brainxp_server.Prelude.Exec.{Exec, internal, lift, not_found, ◌>>=◌, ◌>>◌}
use brainxp_server.Prelude.Rows.{first_where}
use brainxp_server.Prelude.Triple.{Post, Post-bind, Triple, Triple-bind, Triple-read}
use brainxp_server.Tables.{Db}
use brainxp_server.Tables.Activity.{Changes, Policy}
use brainxp_server.Tables.People.{Subject}

module _ (R : Ratios) (law : IsRatios R) (start : Policy) (since subject : ℕ) where
  module _ (at : ℕ) (after_start : since ≤ at) where
    put_change_subject :
        (me : Caller) (c : Changes) (personal_profile : Bool) (p : Policy)
        → (put_change R me c personal_profile at p).1.subject_id ≡ p.subject_id
    unfolding put_change postpone apply_changes
    put_change_subject me c b p = ground arith

    -- The part that every endpoint but cancelling starts with.
    row-Triple :
        (me : Caller) (f : Policy → Exec Db PolicyChangeOut)
        → ((p : Policy) (db : Db)
            → first_where (policy_of subject) db.policies ≡ some p
            → Held start since subject db
            → Post (λ _. Held start since subject) (f p db))
        → Triple
            (Held start since subject)
            (require_policy_writer me subject >> (policy_row subject >>= f))
            (λ _. Held start since subject)
    row-Triple me f h =
        Triple-bind (Held start since subject) (require_policy_writer me subject) _
          (λ _. Held start since subject) _ (writer-keeps start since subject me)
          (λ _.
            Triple-read (Held start since subject)
              (λ db. first_where (policy_of subject) db.policies) not_found f _ h)

    -- The profile of a held row is a personal one.
    profile-Post :
        (f : Subject → Exec Db PolicyChangeOut) (p : Policy) (db : Db)
        → first_where (policy_of subject) db.policies ≡ some p
        → Held start since subject db
        → ((s : Subject) (db' : Db)
            → is_personal s ≡ true
            → first_where (policy_of subject) db'.policies ≡ some p
            → Held start since subject db'
            → Post (λ _. Held start since subject) (f s db'))
        → Post (λ _. Held start since subject) ((subject_row subject >>= f) db)
    profile-Post f p db found h k =
        Triple-read
          (λ s. (first_where (policy_of subject) s.policies ≡ some p) × Held start since subject s)
          (λ s. first_where (λ r. r.id == subject) s.subjects) internal f _
          (λ s db' there q. k s db' (q.1.0 s there) q.0 q.1) db (found, h)

    put-Held :
        (me : Caller) (c : Changes)
        → IsBody c
        → Triple
            (Held start since subject)
            (put_policy R me subject c at)
            (λ _. Held start since subject)
    unfolding put_policy
    put-Held me c body = row-Triple me _ (λ p db found h. elim (Bool-cases (is_empty c)) [
      | inl e ↦ rw e h
      | inr e ↦ rw e (
          profile-Post _ p db found h (λ s db' own found' h'. rw own (
            row-Held start since subject (λ q. (put_change R me c true at q).1) p db' found' h'
              (put_change-Guarded start since at after_start R me c p law body (h'.1 p found'))
              (put_change_subject me c true p))))
    ])

    apply-Held :
        (me : Caller)
        → at < since + weaken_delay
        → Triple
            (Held start since subject)
            (apply_pending R me subject at)
            (λ _. Held start since subject)
    unfolding apply_pending
    apply-Held me early = row-Triple me _ (λ p db found h.
        Post-bind (lift (pending_change R me at p)) _ db _ (λ _. Held start since subject)
          (pending_change_waits start since at after_start R me p db _ early (h.1 p found))
          (λ a s' q. q))

    cancel-Held :
        (me : Caller)
        → Triple
            (Held start since subject)
            (cancel_pending me subject at)
            (λ _. Held start since subject)
    unfolding cancel_pending
    cancel-Held me =
        Triple-bind (Held start since subject) (require_policy_writer me subject) _
          (λ _. Held start since subject) _ (writer-keeps start since subject me)
          (λ _ db h.
            write-Held start since subject (cancelled at) db h
              (λ p found. cancelled-Guarded start since at after_start p (h.1 p found))
              (λ p same. same))

    lock-Held :
        (me : Caller) (x : String)
        → Triple
            (Held start since subject)
            (lock_app me subject x at)
            (λ _. Held start since subject)
    unfolding lock_app
    lock-Held me x = row-Triple me _ (λ p db found h. elim (Bool-cases (is_in x p.locked_apps)) [
      | inl e ↦ rw e h
      | inr e ↦ rw e (
          row-Held start since subject (locked me x at) p db found h
            (locked-Guarded start since at after_start me x p (h.1 p found)) refl)
    ])

    unlock_change_subject :
        (me : Caller) (x : String) (personal_profile : Bool) (p : Policy)
        → (unlock_change me x personal_profile at p).1.subject_id ≡ p.subject_id
    unfolding unlock_change postpone
    unlock_change_subject me x b p = ground arith

    unlock-Held :
        (me : Caller) (x : String)
        → Triple
            (Held start since subject)
            (unlock_app me subject x at)
            (λ _. Held start since subject)
    unfolding unlock_app
    unlock-Held me x = row-Triple me _ (λ p db found h. elim (Bool-cases (is_in x p.locked_apps)) [
      | inr e ↦ rw e tt
      | inl e ↦ rw e (
          profile-Post _ p db found h (λ s db' own found' h'. rw own (
            row-Held start since subject (λ q. (unlock_change me x true at q).1) p db' found' h'
              (unlock_change-Guarded start since at after_start me x p (h'.1 p found'))
              (unlock_change_subject me x true p))))
    ])

    pub serve-Held :
        (me : Caller) (r : PolicyRequest)
        → at < since + weaken_delay
        → Triple
            (Held start since subject)
            (serve_policy R me subject r at)
            (λ _. Held start since subject)
    serve-Held me (put c body) early = put-Held me c body
    serve-Held me apply_now early = apply-Held me early
    serve-Held me cancel early = cancel-Held me
    serve-Held me (lock x) early = lock-Held me x
    serve-Held me (unlock x) early = unlock-Held me x
