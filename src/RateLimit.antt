-- ===== src/RateLimit.antt =====
-- app/services/ratelimit.py: a counter for a bucket, which Redis drops when its time is over. `client_ip`,
-- which picks the text of an address, is left out.
pub mod Quota
mod Tests
use brainxp_server.Prelude.{Bool, Option, if◌then◌else◌, ltb, none, not, some, ℕ, ◌*◌, ◌+◌}
use brainxp_server.Rules.Calendar.{second}

pub record Window : Type 0 where
  pub limit : ℕ
  pub seconds : ℕ

-- A key of Redis: its count and the moment at which it expires.
pub record Counter : Type 0 where
  pub count : ℕ
  pub expires : ℕ

unfoldable pub exceeded : ℕ → Window → Bool
exceeded count w = ltb w.limit count

-- INCR, and EXPIRE on the first count.
unfoldable pub increment : Window → ℕ → Option Counter → Counter
increment w at none = record { count = 1; expires = at + w.seconds * second }
increment w at (some c) =
    if ltb at c.expires
    then record c { count = c.count + 1 }
    else record { count = 1; expires = at + w.seconds * second }

-- `hit`: whether the call is within the limit, and the counter afterwards.
unfoldable pub hit : Window → ℕ → Option Counter → Bool × Counter
unfolding exceeded increment
hit w at key = let c = increment w at key in (not (exceeded c.count w), c)
