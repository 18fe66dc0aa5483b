-- ===== src/Prelude/Triple.antt =====
-- What code over the database ensures when it returns, and how that is shown for its parts.
use brainxp_server.Prelude.{Bool, Option, false, none, refl, some, true, ◌≡◌}
use brainxp_server.Prelude.Exec.{
  AppError, Exec, Result, and_then, err, lift, ok, or_raise, outcome, raise_if, ◌>>=◌, ◌>>◌,
}

-- The postcondition of a run that returned; a run that raised was rolled back and owes nothing.
abbrev pub Post {ℓ κ} : {S A : Type ℓ} → (A → S → Type κ) → Result (A × S) → Type κ
Post Q (ok (a, s)) = Q a s
Post Q (err e) = Unit

abbrev pub Triple {ℓ κ} : {S A : Type ℓ} → (S → Type κ) → Exec S A → (A → S → Type κ) → Type (ℓ ⊔ κ)
Triple {S = S} P m Q = (s : S) → P s → Post Q (m s)

module _ {ℓ κ} {S A B : Type ℓ} where
  -- The part behind a bind starts from what the part before it ensures.
  pub Triple-bind :
      (P : S → Type κ) (m : Exec S A) (f : A → Exec S B) (Q : A → S → Type κ) (R : B → S → Type κ)
      → Triple P m Q
      → ((a : A) → Triple (Q a) (f a) R)
      → Triple P (m >>= f) R
  Triple-bind P m f Q R hm hf s p = go (m s) (hm s p)
    where
      go : (r : Result (A × S)) → Post Q r → Post R (and_then r f)
      go (ok (a, s')) q = hf a s' q
      go (err e) q = tt

module _ {ℓ κ} {S A B : Type ℓ} where
  -- A row that must be there: the rest may use what was found.
  pub Triple-read :
      (P : S → Type κ) (o : S → Option A) (e : AppError) (f : A → Exec S B) (R : B → S → Type κ)
      → ((a : A) (s : S) → o s ≡ some a → P s → Post R (f a s))
      → Triple P ((λ s. or_raise (o s) e s) >>= f) R
  Triple-read P o e f R h s p = go (o s) refl
    where
      go : (x : Option A) → o s ≡ x → Post R (and_then (or_raise x e s) f)
      go none q = tt
      go (some a) q = h a s q p

module _ {ℓ κ} {S A : Type ℓ} where
  pub Post-map :
      (Q R : A → S → Type κ) (r : Result (A × S))
      → ((a : A) (s : S) → Q a s → R a s)
      → Post Q r
      → Post R r
  Post-map Q R (ok (a, s)) f q = f a s q
  Post-map Q R (err e) f q = tt

module _ {ℓ κ} {S A B : Type ℓ} where
  -- The same from one state.
  pub Post-bind :
      (m : Exec S A) (f : A → Exec S B) (s : S) (Q : A → S → Type κ) (R : B → S → Type κ)
      → Post Q (m s)
      → ((a : A) (s' : S) → Q a s' → Post R (f a s'))
      → Post R ((m >>= f) s)
  Post-bind m f s Q R hm hf =
      Triple-bind (λ s'. Post Q (m s')) m f Q R (λ s' h. h) (λ a s' q. hf a s' q) s hm

-- A computation that touches no state leaves it as it was.
pub lift-keeps :
    {S A : Type 0} (r : Result A) (s : S) (Q : A → Type 0)
    → Post (λ a _. Q a) (lift r s)
    → Post (λ a s'. (s' ≡ s) × Q a) (lift r s)
lift-keeps (ok a) s Q h = (refl, h)
lift-keeps (err e) s Q h = tt

pub raise_if-keeps :
    {S : Type 0} (P : S → Type 0) (b : Bool) (e : AppError) → Triple P (raise_if b e) (λ _. P)
raise_if-keeps P true e s h = tt
raise_if-keeps P false e s h = h

-- A run that returns.
abbrev pub Returns {ℓ} : {S A : Type ℓ} → Exec S A → S → Type ℓ
Returns {S = S} {A = A} m s = (a : A) × (s' : S) × (m s ≡ ok (a, s'))

module _ {ℓ} {S A B : Type ℓ} where
  pub Returns-bind :
      (m : Exec S A) (f : A → Exec S B) (s : S)
      → Returns m s
      → ((a : A) (s' : S) → m s ≡ ok (a, s') → Returns (f a) s')
      → Returns (m >>= f) s
  Returns-bind m f s (a, s', e) h = let (b, s'', k) = h a s' e in (b, s'', rw e k)

-- What a run ensures when it returns, it ensures when it did return.
pub Post-Returns :
    {S A : Type 0} (Q : A → S → Type 0) (m : Exec S A) (s : S)
    → Post Q (m s)
    → Returns m s
    → (a : A) × (s' : S) × (m s ≡ ok (a, s')) × Q a s'
Post-Returns Q m s p (a, s', e) = (a, s', e, rw e at p)

-- What holds of the state holds after it.
pub lift-Post :
    {S A : Type 0} (r : Result A) (s : S) (Q : S → Type 0) → Q s → Post (λ _. Q) (lift r s)
lift-Post (ok a) s Q h = h
lift-Post (err e) s Q h = tt

-- A request that was refused leaves the state as it was.
pub outcome-Post :
    {S A : Type 0} (s : S) (r : Result (A × S)) (P : S → Type 0)
    → P s
    → Post (λ _. P) r
    → P (outcome s r)
outcome-Post s (ok (a, s')) P h q = q
outcome-Post s (err e) P h q = h

module _ {ℓ κ} {S A : Type ℓ} where
  -- Behind a refusal that did not come.
  pub Triple-guard :
      (P : S → Type κ) (b : Bool) (e : AppError) (m : Exec S A) (Q : A → S → Type κ)
      → (b ≡ false → Triple P m Q)
      → Triple P (raise_if b e >> m) Q
  Triple-guard P true e m Q h s p = tt
  Triple-guard P false e m Q h s p = h refl s p
