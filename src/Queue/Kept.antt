-- ===== src/Queue/Kept.antt =====
-- The right end of a list, and the jobs that a crashed worker left.
use brainxp_server.Prelude.{
  List, String, [], ap, arith, inl, inr, length, length-append, refl, some, suc, zero, ℕ, ◌++◌, ◌∷◌,
  ◌≡◌, ◌⊎◌,
}
use brainxp_server.Queue.{pop_right, requeue, requeue_stale, reserve}

pub ends :
    (xs : List String)
    → (xs ≡ []) ⊎ ((front : List String) × (last : String) × (xs ≡ front ++ last ∷ []))
ends [] = inl refl
ends (x ∷ xs) = elim (ends xs) [
  | inl e ↦ inr ([], x, rw e refl)
  | inr (front, last, e) ↦ inr (x ∷ front, last, rw e refl)
]

pub pop_right-append :
    (front : List String) (last : String) → pop_right (front ++ last ∷ []) ≡ some (front, last)
unfolding pop_right
pop_right-append [] last = refl
pop_right-append (x ∷ front) last = rw (pop_right-append front last) refl

-- The job that was queued first is reserved.
pub reserve-append :
    (front busy : List String) (last : String)
    → reserve (record { ready = front ++ last ∷ []; busy = busy })
      ≡ (some last, record { ready = front; busy = last ∷ busy })
unfolding reserve
reserve-append front busy last = rw (reserve, pop_right-append front last) refl

split_last :
    (front : List String) (last : String) (ready : List String)
    → (front ++ last ∷ []) ++ ready ≡ front ++ last ∷ ready
split_last [] last ready = refl
split_last (x ∷ front) last ready = ap (λ ys. x ∷ ys) (split_last front last ready)

requeue_rows :
    (busy ready : List String) (fuel : ℕ)
    → fuel ≡ length busy
    → requeue fuel (record { ready = ready; busy = busy })
      ≡ (fuel, record { ready = busy ++ ready; busy = [] })
unfolding requeue
requeue_rows busy ready zero h = elim (ends busy) [
  | inl e ↦ rw e refl
  | inr (front, last, e) ↦ absurd (omega (arith, rw e at h, length-append front (last ∷ [])))
]
requeue_rows busy ready (suc fuel) h = elim (ends busy) [
  | inl e ↦ absurd (omega (arith, rw e at h))
  | inr (front, last, e) ↦
      let shorter : fuel ≡ length front =
        omega (arith, rw e at h, length-append front (last ∷ [])) in
      rw (e, requeue, pop_right-append front last, requeue_rows front (last ∷ ready) fuel shorter)
        (rw (split_last front last ready)
          (ap (λ n. (n, record { ready = front ++ last ∷ ready; busy = [] })) (omega arith)))
]

-- What a crashed worker left is put back whole and in order, ahead of what waits on the left: every job
-- that was busy is ready, none is busy, and the number of them is returned.
pub requeue_stale_lem :
    (ready busy : List String)
    → requeue_stale (record { ready = ready; busy = busy })
      ≡ (length busy, record { ready = busy ++ ready; busy = [] })
unfolding requeue_stale
requeue_stale_lem ready busy = requeue_rows busy ready (length busy) refl
