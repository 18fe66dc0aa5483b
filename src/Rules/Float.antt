-- ===== src/Rules/Float.antt =====
-- Python's floats, which the language has no copy of: an interface that the reward code is a client
-- of, its documented laws on the finite non-negative numbers that the code computes with, and a
-- fixed-point instance at which they hold.
use brainxp_server.Prelude.{
  Bool, arith, false, if◌then◌else◌, ltb, refl, true, ℕ, ◌*◌, ◌+◌, ◌/◌, ◌==◌, ◌≡◌, ◌≤◌,
}
use brainxp_server.Prelude.Int.{pos, ℤ}

pub record Float : Type 1 where
  pub Number : Type 0
  -- the double nearest to n / d: a literal, an integer, or Python's `/` of two integers
  pub ratio : ℕ → ℕ → Number
  pub mul : Number → Number → Number
  pub div : Number → Number → Number
  pub add : Number → Number → Number
  -- `<` and `==`
  pub lt : Number → Number → Bool
  pub eq : Number → Number → Bool
  -- `int(x)` and `round(x)`
  pub trunc : Number → ℤ
  pub round : Number → ℤ
  -- `round(x, 2)`, and what a column NUMERIC(p, 2) keeps of it
  pub round_cents : Number → Number
  pub hundredths : Number → ℕ

module _ (F : Float) where
  open F use {Number, ratio, lt, eq, mul, trunc}

  abbrev pub one : Number
  one = ratio 1 1

  abbrev pub zero_float : Number
  zero_float = ratio 0 1

  -- `a <= b`, for numbers that are no NaN
  abbrev pub LeF : Number → Number → Type 0
  LeF a b = lt b a ≡ false

  -- Python's `min(a, b)` and `max(a, b)`
  abbrev pub min_float : Number → Number → Number
  min_float a b = if lt b a then b else a

  abbrev pub max_float : Number → Number → Number
  max_float a b = if lt a b then b else a

  -- What IEEE 754 promises of them.
  pub record IsFloat : Type 0 where
    pub lt_irrefl : (a : Number) → lt a a ≡ false
    pub lt_asymm : (a b : Number) → lt a b ≡ true → lt b a ≡ false
    pub le_trans : (a b c : Number) → LeF a b → LeF b c → LeF a c
    pub zero_lt_one : lt (ratio 0 1) (ratio 1 1) ≡ true
    pub one_ne_zero : eq (ratio 1 1) (ratio 0 1) ≡ false
    pub zero_eq_zero : eq (ratio 0 1) (ratio 0 1) ≡ true
    pub mul_one : (a : Number) → mul a (ratio 1 1) ≡ a
    pub mul_zero : (a : Number) → LeF (ratio 0 1) a → mul a (ratio 0 1) ≡ ratio 0 1
    pub mul_nonneg :
        (a b : Number) → LeF (ratio 0 1) a → LeF (ratio 0 1) b → LeF (ratio 0 1) (mul a b)
    pub mul_mono : (c a b : Number) → LeF (ratio 0 1) c → LeF a b → LeF (mul c a) (mul c b)
    pub ratio_nonneg : (n d : ℕ) → LeF (ratio 0 1) (ratio n d)

-- Thousandths, rounded down.
abbrev pub thousandths : Float
thousandths = record {
  Number = ℕ;
  ratio = λ n d. n * 1000 / d;
  mul = λ a b. a * b / 1000;
  div = λ a b. a * 1000 / b;
  add = λ a b. a + b;
  lt = ltb;
  eq = λ a b. a == b;
  trunc = λ a. pos (a / 1000);
  round = λ a. pos ((a + 500) / 1000);
  round_cents = λ a. (a + 5) / 10 * 10;
  hundredths = λ a. (a + 5) / 10;
}

mul_mono_thousandths : (c a b : ℕ) → a ≤ b → c * a / 1000 ≤ c * b / 1000
mul_mono_thousandths c a b h = grind arith

pub thousandths-IsFloat : IsFloat thousandths
thousandths-IsFloat = record {
  lt_irrefl = λ a. ground arith;
  lt_asymm = λ a b h. ground arith;
  le_trans = λ a b c h k. ground arith;
  zero_lt_one = refl;
  one_ne_zero = refl;
  zero_eq_zero = refl;
  mul_one = λ a. omega arith;
  mul_zero = λ a h. omega arith;
  mul_nonneg = λ a b h k. ground arith;
  mul_mono = λ c a b h k. ground (arith, mul_mono_thousandths c a b);
  ratio_nonneg = λ n d. ground arith;
}
