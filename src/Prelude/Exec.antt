-- ===== src/Prelude/Exec.antt =====
-- Code that reads and writes the database and may raise. The request's transaction is rolled back
-- when an exception leaves the handler, so an error carries no state.
use Prim.Native.String.{String}
use mathlib.Core.Bool.{Bool, true, false}
use mathlib.Core.Option.{Option, none, some}
use mathlib.Core.Logic.{◌⊎◌, inl, inr}
use mathlib.Core.Path.{◌≡◌, refl}

-- app/errors.py, with the code of those that take one; `internal` is any other exception.
pub data AppError : Type 0 where
  unauthorized forbidden not_found too_large rate_limited internal : AppError
  conflict : String → AppError
  invalid : String → AppError

pub data Result {ℓ} (A : Type ℓ) : Type ℓ where
  ok : A → Result A
  err : AppError → Result A

abbrev pub Exec {ℓ} : Type ℓ → Type ℓ → Type ℓ
Exec S A = S → Result (A × S)

module _ {ℓ} {S A : Type ℓ} where
  abbrev pub pure : A → Exec S A
  pure a s = ok (a, s)

  abbrev pub raise : AppError → Exec S A
  raise e s = err e

  abbrev pub gets : (S → A) → Exec S A
  gets f s = ok (f s, s)

  abbrev pub or_raise : Option A → AppError → Exec S A
  or_raise none e = raise e
  or_raise (some a) e = pure a

  -- A row that must be there.
  abbrev pub fetch : (S → Option A) → AppError → Exec S A
  fetch f e s = or_raise (f s) e s

  abbrev pub lift : Result A → Exec S A
  lift (ok a) s = ok (a, s)
  lift (err e) s = err e

module _ {ℓ} {S : Type ℓ} where
  abbrev pub raise_if : Bool → AppError → Exec S (Unit {ℓ})
  raise_if true e s = err e
  raise_if false e s = ok (tt, s)

  abbrev pub modify : (S → S) → Exec S (Unit {ℓ})
  modify f s = ok (tt, f s)

module _ {ℓ} {S A B : Type ℓ} where
  abbrev pub and_then : Result (A × S) → (A → Exec S B) → Result (B × S)
  and_then (ok (a, s)) f = f a s
  and_then (err e) f = err e

  infixl 10 ◌>>=◌ ◌>>◌
  abbrev pub ◌>>=◌ : Exec S A → (A → Exec S B) → Exec S B
  ◌>>=◌ m f s = and_then (m s) f

  abbrev pub ◌>>◌ : Exec S A → Exec S B → Exec S B
  m >> k = m >>= λ _. k

-- What a request leaves behind: the new state, or the old one when an exception was raised.
abbrev pub outcome {ℓ} : {S A : Type ℓ} → S → Result (A × S) → S
outcome s (ok (a, s')) = s'
outcome s (err e) = s

pub Result-cases {ℓ} :
    {A : Type ℓ} (r : Result A) → ((a : A) × (r ≡ ok a)) ⊎ ((e : AppError) × (r ≡ err e))
Result-cases (ok a) = inl (a, refl)
Result-cases (err e) = inr (e, refl)
