-- ===== src/Rules/Play.antt =====
-- `playable_seconds`, `BlockReason` and `block_reason` of app/services/rules.py.
use brainxp_server.Prelude.{Bool, arith, if◌then◌else◌, ◌↔◌, ◌≡◌}
use brainxp_server.Prelude.Int.{
  +ℤ_parts, -ℤ_parts, leb_ℤ, max_ℤ, min_ℤ, pos, ℤ, ◌+ℤ◌, ◌-ℤ◌, ◌<ℤ◌, ◌≤ℤ◌,
}

pub data BlockReason : Type 0 where
  none no_balance daily_cap guardian_stale idle : BlockReason

unfoldable pub playable_seconds : ℤ → ℤ → ℤ → Bool → ℤ
playable_seconds balance cap spent_today idle_locked =
    if idle_locked then pos 0 else max_ℤ (pos 0) (min_ℤ balance (cap -ℤ spent_today))

unfoldable pub block_reason : ℤ → ℤ → ℤ → Bool → BlockReason
block_reason balance cap spent_today idle_locked =
    if leb_ℤ balance (pos 0)
    then no_balance
    else if idle_locked
    then idle
    else if leb_ℤ (cap -ℤ spent_today) (pos 0)
    then BlockReason.daily_cap
    else BlockReason.none

-- The two functions agree: no reason is given exactly when there are seconds to play, for every
-- balance, cap, usage and idle lock; and what can be played never passes the balance nor, with what
-- was spent, the cap.
pub block_reason-playable_seconds :
    (balance cap spent : ℤ) (locked : Bool)
    → let p = playable_seconds balance cap spent locked in
      ((block_reason balance cap spent locked ≡ BlockReason.none) ↔ (pos 0 <ℤ p))
      × (pos 0 ≤ℤ p)
      × (pos 0 <ℤ p → (p ≤ℤ balance) × (p +ℤ spent ≤ℤ cap))
unfolding block_reason playable_seconds
block_reason-playable_seconds balance cap spent locked = (
  (λ h. ground (arith, -ℤ_parts cap spent), λ h. ground (arith, -ℤ_parts cap spent)),
  ground arith,
  λ h. (
    ground (arith, -ℤ_parts cap spent),
    ground (arith, -ℤ_parts cap spent, +ℤ_parts balance spent, +ℤ_parts (cap -ℤ spent) spent),
  ),
)
