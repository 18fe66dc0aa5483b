-- ===== src/Quizzes/Tests.antt =====
-- A session of two questions.
use brainxp_server.Deps.{authorize_row, authorize_subject}
use brainxp_server.Grading.{EssayPrompt, EssayVerdict, grade_essay, grade_mcq, rewardable_score}
use brainxp_server.Ledger.{
  append, claim_grant, conflicts, credit_reward, grant_today, read_standing, standing,
  standing_under,
}
use brainxp_server.Prelude.{
  All, Bool, List, Option, String, [], arith, eq_iff, false, none, refl, some, suc, true, zero, ℕ,
  ◌↔◌, ◌∷◌, ◌≡◌,
}
use brainxp_server.Prelude.Exec.{Result, err, ok}
use brainxp_server.Prelude.Int.{+ℤ_zero, pos, ℤ}
use brainxp_server.Prelude.Rows.{count_where, exists_where, first_where, rows_where, update_where}
use brainxp_server.Prelude.Text.{
  is_blank, is_space, strip, strip_left, strip_right, word_count, words_after,
}
use brainxp_server.Progress.{award, award_one, ensure_row, ensure_rows, record_session}
use brainxp_server.Quizzes.{arrange, contains_id, deny_proxy, extend_order, load, lookup_id}
use brainxp_server.Quizzes.Choice.{IsDistinct, IsShown, mark_mcq-shown}
use brainxp_server.Quizzes.Counts.{IsTally, tally_all_lem}
use brainxp_server.Quizzes.History.{Studied-IsPaid, hand_in, here, next, respond}
use brainxp_server.Quizzes.Marking.{
  Graded, Mark, mark_all, mark_essay, mark_mcq, mark_question, real_index, write_mark,
}
use brainxp_server.Quizzes.Order.{IsOrder, extend_order_lem}
use brainxp_server.Quizzes.Payout.{IsPaid, payout_total, reward_total}
use brainxp_server.Quizzes.Receipt.{Tally, before_factors, empty_tally, tally_all, tally_one}
use brainxp_server.Quizzes.Shown.{shown_options}
use brainxp_server.Quizzes.Submit.{Receipt, missing_answers, outcome_of, settle, submit}
use brainxp_server.Rules.Calendar.{cap_for, day_key, grant_for}
use brainxp_server.Rules.Float.{thousandths}
use brainxp_server.Rules.Reward.{difficulty_factor, question_reward, score_factor, type_factor}
use brainxp_server.Samples.{db_five, owner}
use brainxp_server.Tables.{Db}
use brainxp_server.Tables.Study.{
  Material, Question, QuestionSet, QuizAnswer, QuizSession, opened, ready,
}

abbrev material_two : Material
material_two = record {
  id = 2;
  subject_id = 5;
  source_type = "image/png";
  original_name = some "catatan.png";
  content_sha256 = "abc";
  storage_key = some (record { subject = 5; material = 2; leaf = "catatan.png" });
  retention_mode = "keep";
  status = ready;
  declared_level = some "smp";
  assessed_level = some "sma";
  detected_language = some "id";
  gate_verdict = some "accepted";
  gate_reason = none;
  topic_summary = some "Fotosintesis";
  purged_at = none;
  last_studied_at = none;
  created_at = 1;
  deleted_at = none;
}

abbrev set_three : QuestionSet
set_three = record {
  id = 3;
  material_id = 2;
  model_id = "stub";
  requested_count = pos 2;
  ready_count = 2;
  status = "complete";
  generated_at = 1;
}

abbrev choice_eleven : Question
choice_eleven = record {
  id = 11;
  question_set_id = 3;
  ordinal = 0;
  qtype = "mcq";
  stem = "Apa hasil fotosintesis?";
  options = some ("air" ∷ "oksigen" ∷ []);
  correct_index = some 1;
  rubric = none;
  reference_answer = none;
  source_excerpt = "menghasilkan oksigen";
  explanation = some "Oksigen dilepas.";
  difficulty = "sulit";
  bloom_level = "apply";
}

abbrev essay_twelve : Question
essay_twelve = record choice_eleven {
  id = 12;
  ordinal = 1;
  qtype = "essay";
  options = none;
  correct_index = none;
  rubric = some [];
  reference_answer = some "Tumbuhan membuat makanan.";
  difficulty = "mudah";
}

-- The options of the choice are shown the other way round.
abbrev session_seven : QuizSession
session_seven = record {
  id = 7;
  subject_id = 5;
  question_set_id = 3;
  question_order = 11 ∷ 12 ∷ [];
  option_permutation = (11, 1 ∷ 0 ∷ []) ∷ [];
  level_factor = 100;
  novelty_factor = 60;
  base_reward_seconds = 60;
  correct_count = none;
  reward_seconds = none;
  is_replay = false;
  status = opened;
  started_at = 2;
  submitted_at = none;
}

abbrev answer_eleven : QuizAnswer
answer_eleven = record {
  session_id = 7;
  question_id = 11;
  chosen_index = some 0;
  essay_text = none;
  score = none;
  is_correct = none;
  reward_seconds = none;
  injection_flag = false;
  answered_at = 3;
}

abbrev answer_twelve : QuizAnswer
answer_twelve = record answer_eleven {
  question_id = 12;
  chosen_index = none;
  essay_text = some "Tumbuhan memakai cahaya untuk membuat makanan dari air dan udara";
}

abbrev db_study : Db
db_study = record db_five {
  materials = material_two ∷ [];
  question_sets = set_three ∷ [];
  questions = choice_eleven ∷ essay_twelve ∷ [];
  quiz_sessions = session_seven ∷ [];
  quiz_answers = answer_eleven ∷ answer_twelve ∷ [];
}

-- A provider that gives every essay 80 of 100.
abbrev generous : EssayPrompt → Result (EssayVerdict thousandths)
generous p = ok (record { total_score = 80000 })

abbrev harmless : List ℕ → Bool
harmless text = false

abbrev credited_to : Result (Receipt thousandths × Db) → Option (ℤ × ℕ)
credited_to (ok (r, db)) = some (r.credited_seconds, r.correct_count)
credited_to (err e) = none

-- 57.6 seconds for the hard choice, and 31.104 for the easy essay.
submit_test :
    credited_to (submit thousandths harmless generous owner 7 true 100 200 db_study)
    ≡ some (pos 88, 2)
unfolding submit load deny_proxy authorize_subject authorize_row first_where rows_where
    missing_answers exists_where mark_all mark_question mark_mcq mark_essay real_index lookup_id
    grade_mcq grade_essay strip strip_left strip_right is_blank is_space word_count words_after
    rewardable_score write_mark update_where tally_all tally_one before_factors settle outcome_of
    credit_reward append conflicts standing standing_under grant_today claim_grant read_standing
    record_session ensure_row ensure_rows award award_one question_reward score_factor
    difficulty_factor type_factor grant_for day_key cap_for
submit_test = refl

-- The books of a ledger without payments.
db_study-IsPaid : (s : ℕ) → IsPaid s db_study
unfolding count_where payout_total reward_total
db_study-IsPaid s = record {
  unique = ground arith;
  once = ground arith;
  as_recorded = ground (arith, +ℤ_zero (pos 0));
}

abbrev in_order : List ℕ → List ℕ
in_order xs = xs

abbrev up_to : ℕ → ℕ → List ℕ
up_to question n = 0 ∷ 1 ∷ []

abbrev twice : Db
twice =
    respond thousandths in_order up_to harmless generous (hand_in owner 7 true) 300 400
      (respond thousandths in_order up_to harmless generous (hand_in owner 7 true) 100 200 db_study)

Studied-IsPaid_example : IsPaid 7 twice
Studied-IsPaid_example =
    Studied-IsPaid thousandths in_order up_to harmless generous
      (next (next here (hand_in owner 7 true) 100 200) (hand_in owner 7 true) 300 400)
      db_study-IsPaid 7

choice-IsDistinct : IsDistinct ("air" ∷ "oksigen" ∷ [])
choice-IsDistinct zero zero o p q = refl
choice-IsDistinct zero (suc zero) o p q = ground (arith, eq_iff "air" "oksigen")
choice-IsDistinct zero (suc (suc j)) o p q = ground arith
choice-IsDistinct (suc zero) zero o p q = ground (arith, eq_iff "air" "oksigen")
choice-IsDistinct (suc zero) (suc zero) o p q = refl
choice-IsDistinct (suc zero) (suc (suc j)) o p q = ground arith
choice-IsDistinct (suc (suc i)) j o p q = ground arith

choice-IsShown : IsShown thousandths session_seven choice_eleven ("oksigen" ∷ "air" ∷ []) "oksigen"
unfolding shown_options arrange lookup_id
choice-IsShown = record {
  options = "air" ∷ "oksigen" ∷ [];
  key = 1;
  has_options = refl;
  has_key = refl;
  at_key = refl;
  distinct = choice-IsDistinct;
  on_screen = refl;
}

mark_mcq-shown_example :
    (m : Mark thousandths) × (mark_mcq thousandths session_seven choice_eleven answer_eleven ≡ ok m)
    × ((m.is_correct ≡ true) ↔ (◌≡◌ {A = String} "oksigen" "oksigen"))
mark_mcq-shown_example =
    mark_mcq-shown thousandths session_seven choice_eleven answer_eleven ("oksigen" ∷ "air" ∷ [])
      "oksigen" 0 "oksigen" choice-IsShown refl refl

extend_order_lem_example :
    let state = extend_order up_to (choice_eleven ∷ essay_twelve ∷ []) (12 ∷ [], []) in
    ((new : List ℕ) × (state.0 ≡ 12 ∷ new))
    × All (λ q. contains_id q.id state.0 ≡ true) (choice_eleven ∷ essay_twelve ∷ [])
    × (IsOrder (12 ∷ []) → IsOrder state.0)
    × (extend_order up_to (choice_eleven ∷ essay_twelve ∷ []) state ≡ state)
extend_order_lem_example = extend_order_lem up_to (choice_eleven ∷ essay_twelve ∷ []) (12 ∷ []) []

abbrev right_eleven : Graded thousandths
right_eleven = record {
  ordinal = 1;
  question = choice_eleven;
  mark = record { is_correct = true; score = none; injection_flag = false; reward_seconds = 57600 };
}

tally_all_lem_example :
    (t : Tally thousandths) × (tally_all thousandths session_seven
        (right_eleven ∷ [])
        (empty_tally thousandths)
      ≡ ok t)
    × IsTally thousandths session_seven (right_eleven ∷ []) (empty_tally thousandths) t
unfolding difficulty_factor type_factor
tally_all_lem_example =
    tally_all_lem thousandths session_seven (right_eleven ∷ []) (empty_tally thousandths) (refl, tt)
