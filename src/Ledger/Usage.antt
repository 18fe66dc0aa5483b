-- ===== src/Ledger/Usage.antt =====
-- The daily usage under the upserts of app/services/ledger.py.
use brainxp_server.Ledger.{add_seconds, claim_grant, spent_on}
use brainxp_server.Prelude.{List, [], arith, false, if◌then◌else◌, ℕ, ◌&&◌, ◌==◌, ◌∷◌, ◌≡◌, ◌≢◌}
use brainxp_server.Prelude.Int.{
  +ℤ_assoc, +ℤ_parts, +ℤ_swap, +ℤ_zero, eq_of_parts, pos, zero_+ℤ, ℤ, ◌+ℤ◌,
}
use brainxp_server.Tables.Activity.{DailyUsage}

-- The seconds that a profile spent, over all days.
unfoldable pub total_spent : ℕ → List DailyUsage → ℤ
total_spent subject [] = pos 0
total_spent subject (u ∷ us) =
    (if u.subject_id == subject then u.spent_seconds else pos 0) +ℤ total_spent subject us

module _ (subject day : ℕ) where
  pub spent_on-add_seconds :
      (seconds : ℤ) (s d : ℕ) (us : List DailyUsage)
      → spent_on s d (add_seconds subject day seconds us)
        ≡ (if subject == s && day == d then spent_on s d us +ℤ seconds else spent_on s d us)
  unfolding spent_on add_seconds
  spent_on-add_seconds seconds s d [] =
      ground (arith, +ℤ_parts (pos 0) seconds, eq_of_parts seconds (pos 0 +ℤ seconds))
  spent_on-add_seconds seconds s d (u ∷ us) = ground (arith, spent_on-add_seconds seconds s d us)

  pub spent_on-claim_grant :
      (at s d : ℕ) (us : List DailyUsage)
      → spent_on s d (claim_grant subject day at us).1 ≡ spent_on s d us
  unfolding spent_on claim_grant
  spent_on-claim_grant at s d [] = ground arith
  spent_on-claim_grant at s d (u ∷ us) = ground (arith, spent_on-claim_grant at s d us)

  pub total_spent-add_seconds :
      (seconds : ℤ) (us : List DailyUsage)
      → total_spent subject (add_seconds subject day seconds us) ≡ total_spent subject us +ℤ seconds
  unfolding total_spent add_seconds
  total_spent-add_seconds seconds [] = ground (arith, +ℤ_zero seconds, zero_+ℤ seconds)
  total_spent-add_seconds seconds (u ∷ us) = ground (
    arith,
    total_spent-add_seconds seconds us,
    +ℤ_swap u.spent_seconds seconds (total_spent subject us),
    +ℤ_assoc u.spent_seconds (total_spent subject us) seconds,
    zero_+ℤ (total_spent subject us),
    zero_+ℤ (total_spent subject us +ℤ seconds),
  )

  pub total_spent-add_seconds_ne :
      (seconds : ℤ) (s : ℕ) (us : List DailyUsage)
      → subject ≢ s
      → total_spent s (add_seconds subject day seconds us) ≡ total_spent s us
  unfolding total_spent add_seconds
  total_spent-add_seconds_ne seconds s [] h = ground (arith, +ℤ_zero (pos 0))
  total_spent-add_seconds_ne seconds s (u ∷ us) h =
      ground (arith, total_spent-add_seconds_ne seconds s us h)

  pub total_spent-claim_grant :
      (at s : ℕ) (us : List DailyUsage)
      → total_spent s (claim_grant subject day at us).1 ≡ total_spent s us
  unfolding total_spent claim_grant
  total_spent-claim_grant at s [] = ground (arith, +ℤ_zero (pos 0))
  total_spent-claim_grant at s (u ∷ us) = ground (arith, total_spent-claim_grant at s us)

  -- The grant of a day is claimed at most once.
  pub claim_grant_once :
      (at at' : ℕ) (us : List DailyUsage)
      → let claimed = (claim_grant subject day at us).1 in
        claim_grant subject day at' claimed ≡ (false, claimed)
  unfolding claim_grant
  claim_grant_once at at' [] = ground arith
  claim_grant_once at at' (u ∷ us) = ground (arith, claim_grant_once at at' us)
