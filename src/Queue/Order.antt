-- ===== src/Queue/Order.antt =====
-- The order in which the worker runs what is queued.
use text.Mathlib.TextPositions.{eq_refl}
use brainxp_server.Prelude.{
  Bool, Bool-cases, List, Option, String, [], ap, arith, if◌then◌else◌, inl, inr, length,
  length-append, or_else, refl, suc, zero, ℕ, ◌++◌, ◌∙◌, ◌∷◌, ◌≡◌,
}
use brainxp_server.Queue.{Jobs, acknowledge, dispatch, handle, remove_first, work}
use brainxp_server.Queue.Kept.{ends, reserve-append}

module _ {ℓ} {D J : Type ℓ} (known : J → Bool) (run : J → D → Option D) (abandon : J → D → D)
    (decode : String → J) where
  -- What a job does to the database in the end.
  abbrev pub effect : String → D → D
  effect raw db =
      if known (decode raw) then or_else (run (decode raw) db) (abandon (decode raw) db) else db

  -- The effects of a list of jobs, the rightmost first.
  abbrev pub effects : List String → D → D
  effects [] db = db
  effects (x ∷ xs) db = effect x (effects xs db)

  effects-append :
      (front : List String) (last : String) (db : D)
      → effects (front ++ last ∷ []) db ≡ effects front (effect last db)
  effects-append [] last db = refl
  effects-append (x ∷ front) last db = ap (effect x) (effects-append front last db)

  -- The given number of turns.
  abbrev pub turns : ℕ → D → Jobs → D × Jobs
  turns zero db q = (db, q)
  turns (suc n) db q = let (db', q') = work known run abandon decode db q in turns n db' q'

  handle_done :
      (ready busy : List String) (last : String) (db : D)
      → handle known run abandon last
          (decode last)
          db
          (record { ready = ready; busy = last ∷ busy })
        ≡ (effect last db, record { ready = ready; busy = busy })
  unfolding handle acknowledge remove_first
  handle_done ready busy last db = elim (Bool-cases (known (decode last))) [
    | inl e ↦ rw (e, eq_refl last) refl
    | inr e ↦ rw (e, eq_refl last) refl
  ]

  work-append :
      (front busy : List String) (last : String) (db : D)
      → work known run abandon decode db (record { ready = front ++ last ∷ []; busy = busy })
        ≡ (effect last db, record { ready = front; busy = busy })
  unfolding work
  work-append front busy last db =
      ap (dispatch known run abandon decode db) (reserve-append front busy last)
      ∙ handle_done front busy last db

  turns_rows :
      (n : ℕ) (ready busy : List String) (db : D)
      → n ≡ length ready
      → turns n db (record { ready = ready; busy = busy })
        ≡ (effects ready db, record { ready = []; busy = busy })
  turns_rows zero ready busy db h = elim (ends ready) [
    | inl e ↦ rw e refl
    | inr (front, last, e) ↦ absurd (omega (arith, rw e at h, length-append front (last ∷ [])))
  ]
  turns_rows (suc n) ready busy db h = elim (ends ready) [
    | inl e ↦ absurd (omega (arith, rw e at h))
    | inr (front, last, e) ↦
        let shorter : n ≡ length front =
          omega (arith, rw e at h, length-append front (last ∷ [])) in
        rw (e, work-append front busy last db, effects-append front last db)
          (turns_rows n front busy (effect last db) shorter)
  ]

  -- As many turns as there are ready jobs run every one of them once, the one that was queued first
  -- first, whether it is known, fails or succeeds; none is left ready, and the busy list is as it was.
  pub turns_lem :
      (ready busy : List String) (db : D)
      → turns (length ready) db (record { ready = ready; busy = busy })
        ≡ (effects ready db, record { ready = []; busy = busy })
  turns_lem ready busy db = turns_rows (length ready) ready busy db refl
