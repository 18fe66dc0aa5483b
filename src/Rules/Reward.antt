-- ===== src/Rules/Reward.antt =====
-- The reward arithmetic of app/services/rules.py: `score_factor`, `question_reward`,
-- `max_possible_reward` and `session_mix`.
use mathlib.Core.Path.{subst}
use brainxp_server.Prelude.{
  Bool, Bool-cases, Option, String, arith, eq_iff, false, if◌then◌else◌, inl, inr, none, or_else,
  some, str_eq, true, ℕ, ◌≡◌, ◌≢◌,
}
use brainxp_server.Prelude.Int.{int_laws, max_ℤ, min_ℤ, pos, pos_part, ℤ, ◌+ℤ◌, ◌-ℤ◌, ◌≤ℤ◌}
use brainxp_server.Rules.Float.{Float, IsFloat, LeF, max_float, min_float}

abbrev pub essay_pass_score : ℕ
essay_pass_score = 60

clamp_bounds :
    (q : ℕ) (r : ℤ)
    → (pos 0 ≤ℤ max_ℤ (pos 0) (min_ℤ (pos q) r)) × (max_ℤ (pos 0) (min_ℤ (pos q) r) ≤ℤ pos q)
clamp_bounds q r = ground arith

difference_nonneg : (a b : ℤ) → b ≤ℤ a → pos 0 ≤ℤ a -ℤ b
difference_nonneg a b h = omega int_laws

module _ (F : Float) where
  open F use {Number, ratio, mul, div, add, lt, round}

  -- DIFFICULTY_FACTOR; `none` is a missing key.
  unfoldable pub difficulty_factor : String → Option Number
  difficulty_factor d =
      if str_eq d "mudah"
      then some (ratio 6 10)
      else if str_eq d "sedang"
      then some (ratio 1 1)
      else if str_eq d "sulit"
      then some (ratio 16 10)
      else none

  -- TYPE_FACTOR
  unfoldable pub type_factor : String → Option Number
  type_factor t =
      if str_eq t "mcq"
      then some (ratio 1 1)
      else if str_eq t "essay"
      then some (ratio 18 10)
      else none

  unfoldable pub score_factor : String → Bool → Option Number → Number
  score_factor qtype correct score =
      if str_eq qtype "mcq" then (if correct then ratio 1 1 else ratio 0 1) else elim score [
        | none ↦ ratio 0 1
        | some s ↦
            if lt s (ratio essay_pass_score 1)
            then ratio 0 1
            else max_float F (ratio 0 1) (min_float F (ratio 1 1) (div s (ratio 100 1)))
      ]

  -- The product of everything but the score factor.
  abbrev pub full_reward : ℕ → String → String → Number → Number → Number
  full_reward base difficulty qtype lf nf =
      mul
        (mul
          (mul (mul (ratio base 1) (or_else (difficulty_factor difficulty) (ratio 1 1)))
            (or_else (type_factor qtype) (ratio 1 1)))
          lf)
        nf

  unfoldable pub question_reward :
      ℕ → String → String → Number → Number → Bool → Option Number → Number
  question_reward base difficulty qtype lf nf correct score =
      mul (full_reward base difficulty qtype lf nf) (score_factor qtype correct score)

  unfoldable pub max_possible_reward : ℕ → ℕ → Number → Number → Number → Number
  max_possible_reward base questions essay_ratio lf nf =
      let essays = round (mul (ratio questions 1) essay_ratio) in
      let mcqs = max_ℤ (pos 0) (pos questions -ℤ essays) in
      let per = mul (mul (mul (ratio base 1) (ratio 16 10)) lf) nf in
      add (mul per (ratio (pos_part mcqs) 1))
        (mul (mul per (ratio 18 10)) (ratio (pos_part essays) 1))

  unfoldable pub session_mix : ℕ → Number → ℤ × ℤ
  session_mix questions essay_ratio =
      let essays =
        max_ℤ (pos 0) (min_ℤ (pos questions) (round (mul (ratio questions 1) essay_ratio))) in
      (pos questions -ℤ essays, essays)

  -- Whatever the ratio and its rounding, a session splits into multiple choice and essay questions,
  -- neither a negative number, that add up to the questions asked for.
  pub session_mix_lem :
      (questions : ℕ) (essay_ratio : Number)
      → let (mcqs, essays) = session_mix questions essay_ratio in
        (mcqs +ℤ essays ≡ pos questions) × (pos 0 ≤ℤ mcqs) × (pos 0 ≤ℤ essays)
  unfolding session_mix
  session_mix_lem questions essay_ratio =
      let essays = round (mul (ratio questions 1) essay_ratio) in
      let bounds = clamp_bounds questions essays in
      (omega int_laws, difference_nonneg (pos questions) _ bounds.1, bounds.0)

  module _ (laws : IsFloat F) where
    open laws use {
      lt_irrefl, lt_asymm, le_trans, zero_lt_one, mul_one, mul_zero, mul_nonneg, mul_mono,
      ratio_nonneg,
    }

    min_one_le : (x : Number) → LeF F (min_float F (ratio 1 1) x) (ratio 1 1)
    min_one_le x = elim (Bool-cases (lt x (ratio 1 1))) [
      | inl e ↦ rw e (lt_asymm x (ratio 1 1) e)
      | inr e ↦ rw e (lt_irrefl (ratio 1 1))
    ]

    clamp_unit :
        (m : Number)
        → LeF F m (ratio 1 1)
        → LeF F (ratio 0 1) (max_float F (ratio 0 1) m)
          × LeF F (max_float F (ratio 0 1) m) (ratio 1 1)
    clamp_unit m h = elim (Bool-cases (lt (ratio 0 1) m)) [
      | inl e ↦ rw e (lt_asymm _ _ e, h)
      | inr e ↦ rw e (lt_irrefl _, lt_asymm _ _ zero_lt_one)
    ]

    unit_zero : LeF F (ratio 0 1) (ratio 0 1) × LeF F (ratio 0 1) (ratio 1 1)
    unit_zero = (lt_irrefl _, lt_asymm _ _ zero_lt_one)

    unit_one : LeF F (ratio 0 1) (ratio 1 1) × LeF F (ratio 1 1) (ratio 1 1)
    unit_one = (lt_asymm _ _ zero_lt_one, lt_irrefl _)

    -- The score factor of every answer lies between zero and one.
    score_factor_bounds :
        (qtype : String) (correct : Bool) (score : Option Number)
        → LeF F (ratio 0 1) (score_factor qtype correct score)
          × LeF F (score_factor qtype correct score) (ratio 1 1)
    unfolding score_factor
    score_factor_bounds qtype correct none = ground (arith, unit_zero, unit_one)
    score_factor_bounds qtype correct (some s) = ground (
      arith,
      unit_zero,
      unit_one,
      clamp_unit (min_float F (ratio 1 1) (div s (ratio 100 1))) (min_one_le _),
    )

    difficulty_nonneg : (d : String) → LeF F (ratio 0 1) (or_else (difficulty_factor d) (ratio 1 1))
    unfolding difficulty_factor
    difficulty_nonneg d = ground (arith, ratio_nonneg 6 10, ratio_nonneg 1 1, ratio_nonneg 16 10)

    type_nonneg : (t : String) → LeF F (ratio 0 1) (or_else (type_factor t) (ratio 1 1))
    unfolding type_factor
    type_nonneg t = ground (arith, ratio_nonneg 1 1, ratio_nonneg 18 10)

    module _ (base : ℕ) (difficulty qtype : String) (lf nf : Number) (hl : LeF F (ratio 0 1) lf)
        (hn : LeF F (ratio 0 1) nf) where
      full_reward_nonneg : LeF F (ratio 0 1) (full_reward base difficulty qtype lf nf)
      full_reward_nonneg =
          mul_nonneg _ _
            (mul_nonneg _ _
              (mul_nonneg _ _ (mul_nonneg _ _ (ratio_nonneg base 1) (difficulty_nonneg difficulty))
                (type_nonneg qtype))
              hl)
            hn

      -- A wrong multiple-choice answer, an essay without a score and an essay below the pass score
      -- earn exactly zero, whatever the other factors; a right multiple-choice answer earns the
      -- whole product of the other factors; and no answer earns a negative amount or more than that
      -- product. The level and novelty factors are not negative.
      pub question_reward_lem :
          (correct : Bool) (score : Option Number)
          → let r = question_reward base difficulty qtype lf nf correct score in
            (qtype ≡ "mcq" → correct ≡ false → r ≡ ratio 0 1)
            × (qtype ≡ "mcq" → correct ≡ true → r ≡ full_reward base difficulty qtype lf nf)
            × (qtype ≢ "mcq" → score ≡ none → r ≡ ratio 0 1)
            × ((s : Number)
                → qtype ≢ "mcq"
                → score ≡ some s
                → lt s (ratio essay_pass_score 1) ≡ true
                → r ≡ ratio 0 1)
            × LeF F (ratio 0 1) r
            × LeF F r (full_reward base difficulty qtype lf nf)
      unfolding question_reward score_factor
      question_reward_lem correct score =
          let full = full_reward base difficulty qtype lf nf in
          let zero_case = mul_zero full full_reward_nonneg in
          let bounds = score_factor_bounds qtype correct score in
          (
            λ m c. ground (arith, eq_iff qtype "mcq", zero_case),
            λ m c. ground (arith, eq_iff qtype "mcq", mul_one full),
            λ m c. ground (arith, eq_iff qtype "mcq", zero_case),
            λ s m c l. ground (arith, eq_iff qtype "mcq", zero_case),
            mul_nonneg _ _ full_reward_nonneg bounds.0,
            subst (λ x. LeF F (mul full (score_factor qtype correct score)) x) (mul_one full)
                (mul_mono full _ _ full_reward_nonneg bounds.1),
          )
