-- ===== src/Prelude/Rows.antt =====
-- Tables as lists of rows, oldest first, and the SQL statements of the code over them.
use mathlib.Core.Path.{◌≡◌, refl}
use mathlib.Core.Bool.{Bool, true, false}
use mathlib.Core.Logic.{◌⊎◌, inl, inr}
use mathlib.Core.List.{List, [], ◌∷◌, ◌++◌}
use mathlib.Core.Option.{Option, none, some}
use Prim.Native.Nat.{ℕ, ◌+◌, ◌≤◌}
use native.Mathlib.Omega.{arith}
use brainxp_server.Prelude.{Bool-cases, if◌then◌else◌}

module _ {ℓ} {A : Type ℓ} where
  -- SELECT … WHERE
  unfoldable pub rows_where : (A → Bool) → List A → List A
  rows_where p [] = []
  rows_where p (x ∷ xs) = let rest = rows_where p xs in if p x then x ∷ rest else rest

  -- The first row that a query yields.
  unfoldable pub first_where : (A → Bool) → List A → Option A
  first_where p [] = none
  first_where p (x ∷ xs) = if p x then some x else first_where p xs

  -- EXISTS
  unfoldable pub exists_where : (A → Bool) → List A → Bool
  exists_where p [] = false
  exists_where p (x ∷ xs) = if p x then true else exists_where p xs

  -- SELECT count(*)
  unfoldable pub count_where : (A → Bool) → List A → ℕ
  count_where p [] = 0
  count_where p (x ∷ xs) = (if p x then 1 else 0) + count_where p xs

  -- UPDATE … SET … WHERE
  unfoldable pub update_where : (A → Bool) → (A → A) → List A → List A
  update_where p f [] = []
  update_where p f (x ∷ xs) = (if p x then f x else x) ∷ update_where p f xs

  -- DELETE … WHERE
  unfoldable pub delete_where : (A → Bool) → List A → List A
  delete_where p [] = []
  delete_where p (x ∷ xs) = let rest = delete_where p xs in if p x then rest else x ∷ rest

  pub count_where-append :
      (p : A → Bool) (xs ys : List A)
      → count_where p (xs ++ ys) ≡ count_where p xs + count_where p ys
  unfolding count_where
  count_where-append p [] ys = omega arith
  count_where-append p (x ∷ xs) ys = omega (arith, count_where-append p xs ys)

  -- No row passes the test exactly when the count is zero.
  pub count_where-exists_where :
      (p : A → Bool) (xs : List A) → exists_where p xs ≡ false → count_where p xs ≡ 0
  unfolding count_where exists_where
  count_where-exists_where p [] h = refl
  count_where-exists_where p (x ∷ xs) h = ground (arith, count_where-exists_where p xs)

module _ {ℓ} {A : Type ℓ} where
  abbrev pub map_some : (A → A) → Option A → Option A
  map_some f none = none
  map_some f (some a) = some (f a)

  -- An update that keeps the test on the rows that it changes finds the updated row.
  pub first_where-update_where :
      (p : A → Bool) (f : A → A) (xs : List A)
      → ((x : A) → p x ≡ true → p (f x) ≡ true)
      → first_where p (update_where p f xs) ≡ map_some f (first_where p xs)
  unfolding first_where update_where
  first_where-update_where p f [] h = refl
  first_where-update_where p f (x ∷ xs) h = elim (Bool-cases (p x)) [
    | inl e ↦ rw (e, h x e) refl
    | inr e ↦ rw (e, e) (first_where-update_where p f xs h)
  ]

  -- What is found passes the test.
  pub first_where_test :
      (p : A → Bool) (xs : List A) (x : A) → first_where p xs ≡ some x → p x ≡ true
  unfolding first_where
  first_where_test p [] x h = cc
  first_where_test p (y ∷ xs) x h = ground (arith, first_where_test p xs x)

  pub first_where-append :
      (p : A → Bool) (xs : List A) (x : A)
      → first_where p xs ≡ none
      → p x ≡ true
      → first_where p (xs ++ x ∷ []) ≡ some x
  unfolding first_where
  first_where-append p [] x h e = rw e refl
  first_where-append p (y ∷ xs) x h e = elim (Bool-cases (p y)) [
    | inl q ↦ absurd (ground arith)
    | inr q ↦ rw q (first_where-append p xs x (ground arith) e)
  ]

  -- What EXISTS says of a row at the end.
  pub exists_where-append :
      (p : A → Bool) (xs ys : List A)
      → exists_where p (xs ++ ys) ≡ (if exists_where p xs then true else exists_where p ys)
  unfolding exists_where
  exists_where-append p [] ys = refl
  exists_where-append p (x ∷ xs) ys = ground (arith, exists_where-append p xs ys)

module _ {ℓ} {A : Type ℓ} (p q : A → Bool) (f : A → A) where
  -- An update after which the changed rows fail a test lets no more rows pass it.
  pub count_where-update_where-le :
      ((x : A) → q x ≡ true → p (f x) ≡ false)
      → (xs : List A) → count_where p (update_where q f xs) ≤ count_where p xs
  unfolding count_where update_where
  count_where-update_where-le h [] = omega arith
  count_where-update_where-le h (x ∷ xs) = elim (Bool-cases (q x)) [
    | inl e ↦ rw (e, h x e) (omega (arith, count_where-update_where-le h xs))
    | inr e ↦ rw e (omega (arith, count_where-update_where-le h xs))
  ]

  -- It lets fewer pass when it changes a row that passed.
  pub count_where-update_where-lt :
      (r : A → Bool) (y : A)
      → ((x : A) → q x ≡ true → p (f x) ≡ false)
      → p y ≡ true
      → q y ≡ true
      → (xs : List A) → first_where r xs ≡ some y
      → count_where p (update_where q f xs) + 1 ≤ count_where p xs
  unfolding count_where update_where first_where
  count_where-update_where-lt r y h py qy [] e = cc
  count_where-update_where-lt r y h py qy (x ∷ xs) e = elim (Bool-cases (r x)) [
    | inl rx ↦
        let same : x ≡ y = cc (rw rx at e) in
        rw (same, qy, py, h y qy) (omega (arith, count_where-update_where-le h xs))
    | inr rx ↦
        let rest = count_where-update_where-lt r y h py qy xs (rw rx at e) in
        elim (Bool-cases (q x)) [
          | inl e' ↦ rw (e', h x e') (omega (arith, rest))
          | inr e' ↦ rw e' (omega (arith, rest))
        ]
  ]

  -- None is left to pass when every row that passed is changed.
  pub count_where-update_where-zero :
      ((x : A) → q x ≡ true → p (f x) ≡ false)
      → ((x : A) → q x ≡ false → p x ≡ false)
      → (xs : List A) → count_where p (update_where q f xs) ≡ 0
  unfolding count_where update_where
  count_where-update_where-zero h k [] = refl
  count_where-update_where-zero h k (x ∷ xs) = elim (Bool-cases (q x)) [
    | inl e ↦ rw (e, h x e) (omega (arith, count_where-update_where-zero h k xs))
    | inr e ↦ rw (e, k x e) (omega (arith, count_where-update_where-zero h k xs))
  ]

  -- An update that leaves a test alone leaves EXISTS alone.
  pub exists_where-update_where :
      ((x : A) → p (f x) ≡ p x)
      → (xs : List A) → exists_where p (update_where q f xs) ≡ exists_where p xs
  unfolding exists_where update_where
  exists_where-update_where h [] = refl
  exists_where-update_where h (x ∷ xs) = ground (arith, h x, exists_where-update_where h xs)

-- What EXISTS does not see, a query does not find.
pub first_where-exists_where {ℓ} :
    {A : Type ℓ} (p : A → Bool) (xs : List A) → exists_where p xs ≡ false → first_where p xs ≡ none
unfolding first_where exists_where
first_where-exists_where p [] h = refl
first_where-exists_where p (x ∷ xs) h = ground (arith, first_where-exists_where p xs)

-- What EXISTS sees, a query finds.
pub exists_where_found {ℓ} :
    {A : Type ℓ} (p : A → Bool) (xs : List A)
    → exists_where p xs ≡ true
    → (x : A) × (first_where p xs ≡ some x)
unfolding first_where exists_where
exists_where_found p [] h = cc
exists_where_found p (x ∷ xs) h = elim (Bool-cases (p x)) [
  | inl e ↦ rw e (x, refl)
  | inr e ↦ rw e (exists_where_found p xs (rw e at h))
]

module _ {ℓ} {A : Type ℓ} (p q : A → Bool) where
  -- The row that a query finds after an update that leaves the query's test alone.
  pub first_where-update_where_any :
      (f : A → A)
      → ((x : A) → p (f x) ≡ p x)
      → (xs : List A)
      → first_where p (update_where q f xs)
        ≡ map_some (λ x. if q x then f x else x) (first_where p xs)
  unfolding first_where update_where
  first_where-update_where_any f same [] = refl
  first_where-update_where_any f same (x ∷ xs) = elim (Bool-cases (q x)) [
    | inl e ↦
        rw (e, same x)
          (elim (Bool-cases (p x)) [
            | inl h ↦ rw (h, e) refl
            | inr h ↦ rw h (first_where-update_where_any f same xs)
          ])
    | inr e ↦ rw e (elim (Bool-cases (p x)) [
      | inl h ↦ rw (h, e) refl
      | inr h ↦ rw h (first_where-update_where_any f same xs)
    ])
  ]

  -- What EXISTS sees after a deletion, of rows that are all deleted or all left.
  pub exists_where-delete_where :
      (b : Bool)
      → ((x : A) → p x ≡ true → q x ≡ b)
      → (xs : List A)
      → exists_where p (delete_where q xs) ≡ (if b then false else exists_where p xs)
  unfolding exists_where delete_where
  exists_where-delete_where b all [] = ground arith
  exists_where-delete_where b all (x ∷ xs) =
      ground (arith, exists_where-delete_where b all xs, all x)

module _ {ℓ} {A : Type ℓ} (p : A → Bool) where
  -- A row that is found is found in a longer table.
  pub first_where-append_some :
      (xs ys : List A) (x : A) → first_where p xs ≡ some x → first_where p (xs ++ ys) ≡ some x
  unfolding first_where
  first_where-append_some [] ys x h = cc
  first_where-append_some (y ∷ xs) ys x h = ground (arith, first_where-append_some xs ys x)

  -- What a query finds in a table with one more row was there, or is that row.
  pub first_where-append_cases :
      (xs : List A) (y x : A)
      → first_where p (xs ++ y ∷ []) ≡ some x
      → (first_where p xs ≡ some x) ⊎ (x ≡ y)
  unfolding first_where
  first_where-append_cases [] y x h = ground arith
  first_where-append_cases (z ∷ xs) y x h = ground (arith, first_where-append_cases xs y x)
