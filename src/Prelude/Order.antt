-- ===== src/Prelude/Order.antt =====
-- ORDER BY: a list sorted by a number, and the row with the highest one.
use Prim.Native.Nat.{ℕ}
use mathlib.Core.List.{List, [], ◌∷◌}
use mathlib.Core.Option.{Option, none, some}
use brainxp_server.Prelude.{if◌then◌else◌, leb, ltb}

module _ {ℓ} {A : Type ℓ} (key : A → ℕ) where
  insert_by : A → List A → List A
  insert_by x [] = x ∷ []
  insert_by x (y ∷ ys) =
      let rest = insert_by x ys in if leb (key x) (key y) then x ∷ y ∷ ys else y ∷ rest

  -- ORDER BY key; rows with the same key stay in their order.
  unfoldable pub sort_by : List A → List A
  unfolding insert_by
  sort_by [] = []
  sort_by (x ∷ xs) = insert_by x (sort_by xs)

  -- ORDER BY key DESC LIMIT 1
  unfoldable pub latest_by : List A → Option A
  latest_by [] = none
  latest_by (x ∷ xs) = elim (latest_by xs) [
    | none ↦ some x
    | some y ↦ some (if ltb (key x) (key y) then y else x)
  ]
