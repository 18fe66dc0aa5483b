-- ===== src/RateLimit/Quota.antt =====
-- How many calls a window lets through.
use brainxp_server.Prelude.{
  All, List, Option, [], arith, if◌then◌else◌, length, ltb, min, none, some, true, ℕ, ◌*◌, ◌+◌, ◌<◌,
  ◌∷◌, ◌≡◌,
}
use brainxp_server.RateLimit.{Counter, Window, exceeded, hit, increment}
use brainxp_server.Rules.Calendar.{second}

-- The calls at the given moments, one after the other, that are let through.
unfoldable pub let_through : Window → List ℕ → Option Counter → ℕ
unfolding hit
let_through w [] key = 0
let_through w (at ∷ times) key =
    let (within, c) = hit w at key in
    let rest = let_through w times (some c) in (if within then 1 else 0) + rest

-- A counter that is running lets the rest of the limit through.
running :
    (w : Window) (times : List ℕ) (c : Counter)
    → All (λ t. t < c.expires) times
    → let_through w times (some c) + min c.count w.limit ≡ min (c.count + length times) w.limit
unfolding let_through hit exceeded increment
running w [] c h = omega arith
running w (at ∷ times) c h =
    let early : ltb at c.expires ≡ true = ground (arith, h.0) in
    let rest = running w times (record c { count = c.count + 1 }) h.1 in
    rw early (ground (arith, rest))

-- However many calls come within the window that the first of them opens, exactly the first ones up to
-- the limit are let through.
pub let_through_lem :
    (w : Window) (first : ℕ) (times : List ℕ)
    → All (λ t. t < first + w.seconds * second) times
    → let_through w (first ∷ times) none ≡ min (length (first ∷ times)) w.limit
unfolding let_through hit exceeded increment
let_through_lem w first times h =
    let rest = running w times (record { count = 1; expires = first + w.seconds * second }) h in
    ground (arith, rest)
