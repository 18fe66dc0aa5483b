-- ===== src/Quizzes/Shown.antt =====
-- What a session shows of its questions and of the answers that are saved (`_public` and
-- `_saved_answers` of app/routers/quizzes.py).
use brainxp_server.Prelude.{
  List, Option, String, [], if◌then◌else◌, map, none, or_else, some, str_eq, ℕ, ◌==◌, ◌∷◌,
}
use brainxp_server.Prelude.Int.{ℤ}
use brainxp_server.Prelude.Rows.{first_where, rows_where}
use brainxp_server.Quizzes.{Permutations, arrange, has_choices, lookup_id, question_id_of}
use brainxp_server.Rules.Float.{Float}
use brainxp_server.Rules.Reward.{difficulty_factor, type_factor}
use brainxp_server.Tables.{Db}
use brainxp_server.Tables.Study.{Question, QuizAnswer}

pub record AnswerState : Type 0 where
  pub question_id : ℕ
  pub chosen_index : Option ℕ
  pub essay_text : Option String

abbrev pub answer_state : QuizAnswer → AnswerState
answer_state a = record {
  question_id = a.question_id;
  chosen_index = a.chosen_index;
  essay_text = a.essay_text;
}

unfoldable pub saved_answers : ℕ → Db → List AnswerState
saved_answers session db =
    map answer_state (rows_where (λ a. a.session_id == session) db.quiz_answers)

module _ (F : Float) where
  open F use {Number}

  pub record QuestionPublic : Type 0 where
    pub id : ℕ
    pub ordinal : ℕ
    pub qtype : String
    pub stem : String
    pub options : Option (List String)
    pub difficulty : String
    pub bloom_level : String
    pub source_excerpt : String
    pub rubric_criteria : Option (List String)
    pub type_multiplier : Number
    pub difficulty_multiplier : Number

  -- The options in the order of the session; `none` is Python's IndexError.
  unfoldable pub shown_options : Question → List ℕ → Option (Option (List String))
  unfolding arrange
  shown_options q perm =
      if has_choices q
      then elim (arrange (or_else q.options []) perm) [ none ↦ none | some os ↦ some (some os) ]
      else some none

  unfoldable pub public_question : Question → List ℕ → Option QuestionPublic
  unfolding shown_options
  public_question q perm = elim (shown_options q perm) [
    | none ↦ none
    | some options ↦ elim (type_factor F q.qtype) [
      | none ↦ none
      | some t ↦ elim (difficulty_factor F q.difficulty) [
        | none ↦ none
        | some d ↦ some (record {
          id = q.id;
          ordinal = q.ordinal;
          qtype = q.qtype;
          stem = q.stem;
          options = options;
          difficulty = q.difficulty;
          bloom_level = q.bloom_level;
          source_excerpt = q.source_excerpt;
          rubric_criteria =
              if str_eq q.qtype "essay"
              then some (map (λ c. c.criterion) (or_else q.rubric []))
              else none;
          type_multiplier = t;
          difficulty_multiplier = d;
        })
      ]
    ]
  ]

  -- The questions in the session's order; one that is in the order and not in the set is left out.
  unfoldable pub public_questions :
      List Question → Permutations → List ℕ → Option (List QuestionPublic)
  unfolding public_question lookup_id
  public_questions rows perms [] = some []
  public_questions rows perms (id ∷ order) =
      let rest = public_questions rows perms order in
      elim (first_where (question_id_of id) rows) [
        | none ↦ rest
        | some q ↦ elim (public_question q (or_else (lookup_id id perms) [])) [
          | none ↦ none
          | some p ↦ elim rest [ none ↦ none | some ps ↦ some (p ∷ ps) ]
        ]
      ]

  pub record QuizOut : Type 0 where
    pub session_id : ℕ
    pub material_id : ℕ
    pub title : Option String
    pub base_reward_seconds : ℕ
    pub level : Number
    pub novelty : Number
    pub max_reward_seconds : ℤ
    pub ready_count : ℕ
    pub total_count : ℤ
    pub status : String
    pub answers : List AnswerState
    pub questions : List QuestionPublic
