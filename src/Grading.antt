-- ===== src/Grading.antt =====
-- app/services/grading.py: `EssayResult`, `grade_mcq` and `grade_essay`. Whether the patterns of
-- `detect_injection` match is a parameter, and so is what the provider of models replies.
mod Tests
use brainxp_server.Policies.Handlers.{reply}
use brainxp_server.Prelude.{
  Bool, List, Option, String, equals_id, false, if◌then◌else◌, ltb, none, not, some, true, ℕ,
}
use brainxp_server.Prelude.Exec.{Result, err, ok}
use brainxp_server.Prelude.Text.{is_blank, strip, word_count}
use brainxp_server.Rules.Float.{Float, max_float, min_float}
use brainxp_server.Rules.Reward.{essay_pass_score}
use brainxp_server.Tables.Study.{Criterion}

abbrev pub min_essay_words : ℕ
min_essay_words = 8

unfoldable pub grade_mcq : Option ℕ → Option ℕ → Bool
grade_mcq none correct_index = false
grade_mcq (some i) correct_index = equals_id correct_index i

-- What a provider is asked to grade.
pub record EssayPrompt : Type 0 where
  pub stem : String
  pub rubric : List Criterion
  pub reference_answer : String
  pub answer : List ℕ

module _ (F : Float) where
  open F use {Number, ratio, lt}

  -- EssayVerdict, whose criteria only end in the notes.
  pub record EssayVerdict : Type 0 where
    pub total_score : Number

  pub record EssayResult : Type 0 where
    pub score : Number
    pub passed : Bool
    pub injection_flag : Bool

  -- the property `rewardable_score`
  unfoldable pub rewardable_score : EssayResult → Option Number
  rewardable_score r = if r.injection_flag then none else some r.score

  abbrev pub no_result : Bool → EssayResult
  no_result flag = record { score = ratio 0 1; passed = false; injection_flag = flag }

  -- The result once the provider has replied.
  abbrev pub graded : EssayVerdict → EssayResult
  graded v =
      let score = max_float F (ratio 0 1) (min_float F (ratio 100 1) v.total_score) in
      record {
        score = score;
        passed = not (lt score (ratio essay_pass_score 1));
        injection_flag = false;
      }

  abbrev pub map_result {ℓ} : {A B : Type ℓ} → (A → B) → Result A → Result B
  map_result f (ok a) = ok (f a)
  map_result f (err e) = err e

  module _ (detect_injection : List ℕ → Bool) (reply : EssayPrompt → Result EssayVerdict) where
    unfoldable pub grade_essay : EssayPrompt → Result EssayResult
    unfolding strip word_count
    grade_essay p =
        let text = strip p.answer in
        if is_blank text
        then ok (no_result false)
        else if detect_injection text
        then ok (no_result true)
        else if ltb (word_count text) min_essay_words
        then ok (no_result false)
        else map_result graded (reply (record p { answer = text }))
