-- ===== src/RateLimit/Tests.antt =====
-- A limit of two calls in ten seconds.
use brainxp_server.Prelude.{[], arith, min, none, ◌∷◌, ◌≡◌}
use brainxp_server.RateLimit.{Window}
use brainxp_server.RateLimit.Quota.{let_through, let_through_lem}

abbrev two_in_ten : Window
two_in_ten = record { limit = 2; seconds = 10 }

let_through_lem_example : let_through two_in_ten (5 ∷ 6 ∷ 7 ∷ []) none ≡ min 3 2
let_through_lem_example = let_through_lem two_in_ten 5 (6 ∷ 7 ∷ []) (omega arith, (omega arith, tt))
