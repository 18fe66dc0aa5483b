-- ===== src/Quizzes/Receipt.antt =====
-- The receipt of `submit` in app/routers/quizzes.py: what the marked questions add up to.
use brainxp_server.Prelude.{
  Bool, List, Option, String, [], if◌then◌else◌, is_some, none, not, some, str_eq, ℕ, ◌++◌, ◌+◌,
  ◌∷◌,
}
use brainxp_server.Prelude.Exec.{Result, err, internal, ok}
use brainxp_server.Quizzes.Marking.{Graded, Mark, level_of, novelty_of}
use brainxp_server.Rules.Float.{Float}
use brainxp_server.Rules.Reward.{difficulty_factor, type_factor}
use brainxp_server.Tables.Study.{Question, QuizSession}

module _ (F : Float) where
  open F use {Number, ratio, mul, div, add, lt, eq, round_cents}

  pub record ReceiptRow : Type 0 where
    pub ordinal : ℕ
    pub qtype : String
    pub difficulty : String
    pub multiplier : Number
    pub reward_seconds : Number
    pub voided : Bool
    pub void_reason : Option String
    pub score : Option Number
    pub explanation : Option String

  -- The variables of the loop that adds the receipt up.
  pub record Tally : Type 0 where
    pub rows : List ReceiptRow
    pub subtotal : Number
    pub correct : ℕ
    pub hard : ℕ
    pub essay_passed : ℕ

  abbrev pub empty_tally : Tally
  empty_tally = record { rows = []; subtotal = ratio 0 1; correct = 0; hard = 0; essay_passed = 0 }

  -- `DIFFICULTY_FACTOR[difficulty] * TYPE_FACTOR[qtype]`; `none` is Python's KeyError.
  abbrev pub multiplier : Question → Option Number
  multiplier q = elim (difficulty_factor F q.difficulty) [
    | none ↦ none
    | some d ↦ elim (type_factor F q.qtype) [ none ↦ none | some t ↦ some (mul d t) ]
  ]

  -- `earned / (lf * nf) if lf * nf else earned`
  unfoldable pub before_factors : QuizSession → Number → Number
  before_factors ses amount =
      let factors = mul (level_of F ses) (novelty_of F ses) in
      if eq factors (ratio 0 1) then amount else div amount factors

  -- `earned <= 0`, for a number that is no NaN
  abbrev pub earns_nothing : Mark F → Bool
  earns_nothing m = not (lt (ratio 0 1) m.reward_seconds)

  abbrev pub receipt_row : Graded F → Number → Number → Option String → Option Number → ReceiptRow
  receipt_row g mult seconds reason score = record {
    ordinal = g.ordinal;
    qtype = g.question.qtype;
    difficulty = g.question.difficulty;
    multiplier = mult;
    reward_seconds = seconds;
    voided = is_some reason;
    void_reason = reason;
    score = score;
    explanation = g.question.explanation;
  }

  -- One turn of the loop over the marked questions.
  unfoldable pub tally_one : QuizSession → Graded F → Number → Tally → Tally
  unfolding before_factors
  tally_one ses g mult t =
      if g.mark.injection_flag
      then record t { rows = t.rows ++ receipt_row g mult (ratio 0 1) (some "ditandai") none ∷ [] }
      else if earns_nothing g.mark
      then record t {
        rows = t.rows ++ receipt_row g mult (ratio 0 1) (some "salah") g.mark.score ∷ [];
      }
      else let pre = before_factors ses g.mark.reward_seconds in
        record {
          rows = t.rows ++ receipt_row g mult (round_cents pre) none g.mark.score ∷ [];
          subtotal = add t.subtotal pre;
          correct = t.correct + 1;
          hard = t.hard + (if str_eq g.question.difficulty "sulit" then 1 else 0);
          essay_passed = t.essay_passed + (if str_eq g.question.qtype "essay" then 1 else 0);
        }

  unfoldable pub tally_all : QuizSession → List (Graded F) → Tally → Result Tally
  unfolding tally_one
  tally_all ses [] t = ok t
  tally_all ses (g ∷ gs) t = elim (multiplier g.question) [
    | none ↦ err internal
    | some mult ↦ tally_all ses gs (tally_one ses g mult t)
  ]

  abbrev pub gross_seconds : QuizSession → Tally → Number
  gross_seconds ses t = mul (mul t.subtotal (level_of F ses)) (novelty_of F ses)
