-- ===== src/Quizzes/Marking.antt =====
-- The marks of `submit` in app/routers/quizzes.py: an answer is graded and what it earns is written.
-- What the provider of models replies to an essay and whether a text matches `detect_injection` are
-- parameters.
use brainxp_server.Grading.{
  EssayPrompt, EssayResult, EssayVerdict, grade_essay, grade_mcq, map_result, rewardable_score,
}
use brainxp_server.Prelude.{
  Bool, List, Option, [], false, get_elem?, if◌then◌else◌, none, or_else, some, ℕ, ◌++◌, ◌+◌, ◌==◌,
  ◌∷◌,
}
use brainxp_server.Prelude.Exec.{
  Exec, Result, err, internal, lift, modify, ok, or_raise, pure, ◌>>=◌, ◌>>◌,
}
use brainxp_server.Prelude.Rows.{first_where, update_where}
use brainxp_server.Prelude.Text.{codes}
use brainxp_server.Quizzes.{answer_to, is_mcq, lookup_id, question_id_of}
use brainxp_server.Rules.Float.{Float}
use brainxp_server.Rules.Reward.{question_reward}
use brainxp_server.Tables.{Db}
use brainxp_server.Tables.Activity.{GuardianEvent, essay_attempt}
use brainxp_server.Tables.Study.{Question, QuizAnswer, QuizSession}

-- `perm[picked] if (picked is not None and perm) else picked`; an error is Python's IndexError.
unfoldable pub real_index : List ℕ → Option ℕ → Result (Option ℕ)
real_index perm none = ok none
real_index [] (some i) = ok (some i)
real_index (p ∷ perm) (some i) = elim (get_elem? (p ∷ perm) i) [
  | none ↦ err internal
  | some j ↦ ok (some j)
]

abbrev pub injection_event : QuizSession → ℕ → ℕ → GuardianEvent
injection_event ses question at = record {
  subject_id = some ses.subject_id;
  device_id = none;
  event_type = "essay_injection_attempt";
  payload = essay_attempt ses.id question;
  occurred_at = at;
}

module _ (F : Float) where
  open F use {Number, ratio, hundredths}

  pub record Mark : Type 0 where
    pub is_correct : Bool
    pub score : Option Number
    pub injection_flag : Bool
    pub reward_seconds : Number

  abbrev pub level_of : QuizSession → Number
  level_of ses = ratio ses.level_factor 100

  abbrev pub novelty_of : QuizSession → Number
  novelty_of ses = ratio ses.novelty_factor 100

  -- The mark of a multiple-choice answer.
  unfoldable pub mark_mcq : QuizSession → Question → QuizAnswer → Result Mark
  unfolding real_index
  mark_mcq ses q a =
      map_result F
        (λ real.
          let correct = grade_mcq real q.correct_index in
          record {
            is_correct = correct;
            score = none;
            injection_flag = false;
            reward_seconds =
                question_reward F ses.base_reward_seconds q.difficulty "mcq" (level_of ses)
                  (novelty_of ses) correct none;
          })
        (real_index (or_else (lookup_id q.id ses.option_permutation) []) a.chosen_index)

  abbrev pub essay_prompt : Question → QuizAnswer → EssayPrompt
  essay_prompt q a = record {
    stem = q.stem;
    rubric = or_else q.rubric [];
    reference_answer = or_else q.reference_answer "";
    answer = codes (or_else a.essay_text "");
  }

  -- The mark of an essay that was graded.
  unfoldable pub mark_essay : QuizSession → Question → EssayResult F → Mark
  mark_essay ses q v = record {
    is_correct = v.passed;
    score = some v.score;
    injection_flag = v.injection_flag;
    reward_seconds =
        question_reward F ses.base_reward_seconds q.difficulty "essay" (level_of ses)
          (novelty_of ses) false (rewardable_score F v);
  }

  abbrev pub marked : Mark → QuizAnswer → QuizAnswer
  marked m a = record a {
    score = elim m.score [ none ↦ none | some s ↦ some (hundredths s) ];
    is_correct = some m.is_correct;
    reward_seconds = some (hundredths m.reward_seconds);
    injection_flag = m.injection_flag;
  }

  -- What a mark writes: an event if the answer talks to the grader, and the columns of the answer.
  unfoldable pub write_mark : QuizSession → Question → Mark → ℕ → Db → Db
  write_mark ses q m at db = record db {
    guardian_events =
        if m.injection_flag
        then db.guardian_events ++ injection_event ses q.id at ∷ []
        else db.guardian_events;
    quiz_answers = update_where (answer_to ses.id q.id) (marked m) db.quiz_answers;
  }

  -- A question with its mark, at its place in the session's order.
  pub record Graded : Type 0 where
    pub ordinal : ℕ
    pub question : Question
    pub mark : Mark

  module _ (detect_injection : List ℕ → Bool) (reply : EssayPrompt → Result (EssayVerdict F)) where
    unfoldable pub mark_question : QuizSession → Question → QuizAnswer → Result Mark
    unfolding mark_mcq mark_essay
    mark_question ses q a =
        if is_mcq q
        then mark_mcq ses q a
        else map_result F (mark_essay ses q)
            (grade_essay F detect_injection reply (essay_prompt q a))

    -- The loop that marks, over the questions and the answers as they were read.
    unfoldable pub mark_all :
        QuizSession → List Question → List QuizAnswer → ℕ → ℕ → List ℕ → Exec Db (List Graded)
    unfolding mark_question write_mark
    mark_all ses questions answers at n [] db = ok ([], db)
    mark_all ses questions answers at n (id ∷ order) db =
        elim (first_where (question_id_of id) questions) [
          | none ↦ mark_all ses questions answers at (n + 1) order db
          | some q ↦
              (do
                a ← or_raise (first_where (λ a. a.question_id == id) answers) internal
                m ← lift (mark_question ses q a)
                modify (write_mark ses q m at)
                rest ← mark_all ses questions answers at (n + 1) order
                pure (record { ordinal = n; question = q; mark = m } ∷ rest))
                db
        ]
