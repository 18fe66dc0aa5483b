-- ===== src/Quizzes.antt =====
-- app/routers/quizzes.py: a session of questions, from its start to its answers. What `random` draws is
-- a parameter: `shuffle` of the questions, and `sample`, which orders the options of a question. The
-- identifiers in the stored order are numbers, as everywhere.
pub mod Shown
pub mod Choice
pub mod Order
pub mod Counts
mod Tests
pub mod Opening
pub mod Marking
pub mod Receipt
pub mod Submit
pub mod Payout
pub mod Credited
pub mod Settled
pub mod Kept
pub mod HandedIn
pub mod History
use brainxp_server.Deps.{Caller, authorize_subject, is_proxy}
use brainxp_server.Prelude.{
  Bool, List, Option, String, [], false, get_elem?, if◌then◌else◌, is_none, length, none, not,
  or_else, some, str_eq, true, ℕ, ◌&&◌, ◌++◌, ◌==◌, ◌||◌, ◌∷◌,
}
use brainxp_server.Prelude.Exec.{
  Exec, conflict, fetch, forbidden, gets, invalid, modify, not_found, raise_if, ◌>>=◌, ◌>>◌,
}
use brainxp_server.Prelude.Rows.{count_where, exists_where, first_where, update_where}
use brainxp_server.Prelude.Text.{codes, is_blank}
use brainxp_server.Tables.{Db}
use brainxp_server.Tables.People.{Subject}
use brainxp_server.Tables.Study.{Question, QuizAnswer, QuizSession, opened, submitted}

-- `x or default` of a text, where an empty one counts as none.
abbrev pub or_text : Option String → String → String
or_text none d = d
or_text (some s) d = if str_eq s "" then d else s

-- `d.get(key)` of a stored object.
unfoldable pub lookup_id {ℓ} : {A : Type ℓ} → ℕ → List (ℕ × A) → Option A
lookup_id k [] = none
lookup_id k ((j, v) ∷ rest) = if j == k then some v else lookup_id k rest

-- `d[key] = value`
unfoldable pub set_id {ℓ} : {A : Type ℓ} → ℕ → A → List (ℕ × A) → List (ℕ × A)
set_id k v [] = (k, v) ∷ []
set_id k v ((j, w) ∷ rest) = let r = set_id k v rest in if j == k then (j, v) ∷ rest else (j, w) ∷ r

-- `k in xs`
unfoldable pub contains_id : ℕ → List ℕ → Bool
contains_id k [] = false
contains_id k (x ∷ xs) = x == k || contains_id k xs

abbrev pub Permutations : Type 0
Permutations = List (ℕ × List ℕ)

abbrev pub is_mcq : Question → Bool
is_mcq q = str_eq q.qtype "mcq"

-- `r["qtype"] == "mcq" and r["options"]`
abbrev pub has_choices : Question → Bool
has_choices q = is_mcq q && elim q.options [ none ↦ false | some os ↦ not (length os == 0) ]

abbrev pub option_count : Question → ℕ
option_count q = elim q.options [ none ↦ 0 | some os ↦ length os ]

-- `[options[i] for i in perm]`
unfoldable pub arrange {ℓ} : {A : Type ℓ} → List A → List ℕ → Option (List A)
arrange options [] = some []
arrange options (i ∷ perm) = elim (get_elem? options i) [
  | none ↦ none
  | some o ↦ elim (arrange options perm) [ none ↦ none | some os ↦ some (o ∷ os) ]
]

abbrev pub has_session_id : ℕ → QuizSession → Bool
has_session_id id s = s.id == id

abbrev pub is_opened : QuizSession → Bool
is_opened s = elim s.status [ opened ↦ true | submitted ↦ false ]

abbrev pub answer_to : ℕ → ℕ → QuizAnswer → Bool
answer_to session question a = a.session_id == session && a.question_id == question

abbrev pub question_id_of : ℕ → Question → Bool
question_id_of id q = q.id == id

abbrev pub in_set : ℕ → Question → Bool
in_set set q = q.question_set_id == set

unfoldable pub deny_proxy : Caller → Subject → Exec Db Unit
deny_proxy me subject = raise_if (is_proxy me subject) forbidden

unfoldable pub load : ℕ → Exec Db QuizSession
load session = fetch (λ db. first_where (has_session_id session) db.quiz_sessions) not_found

-- The permutations that `start_quiz` draws.
unfoldable pub draw_options : (ℕ → ℕ → List ℕ) → List Question → Permutations
draw_options sample [] = []
draw_options sample (q ∷ qs) =
    let rest = draw_options sample qs in
    if has_choices q then (q.id, sample q.id (option_count q)) ∷ rest else rest

-- Questions that came after the session started join its order, and their options are drawn.
unfoldable pub extend_order :
    (ℕ → ℕ → List ℕ) → List Question → List ℕ × Permutations → List ℕ × Permutations
unfolding contains_id set_id
extend_order sample [] state = state
extend_order sample (q ∷ qs) (order, perms) =
    let new = not (contains_id q.id order) in
    extend_order sample qs (
      if new then order ++ q.id ∷ [] else order,
      if new && has_choices q then set_id q.id (sample q.id (option_count q)) perms else perms,
    )

pub record AnswerIn : Type 0 where
  pub question_id : ℕ
  pub chosen_index : Option ℕ
  pub essay_text : Option String

abbrev pub answer_row : ℕ → AnswerIn → ℕ → QuizAnswer
answer_row session body at = record {
  session_id = session;
  question_id = body.question_id;
  chosen_index = body.chosen_index;
  essay_text = body.essay_text;
  score = none;
  is_correct = none;
  reward_seconds = none;
  injection_flag = false;
  answered_at = at;
}

abbrev pub rewritten : AnswerIn → ℕ → QuizAnswer → QuizAnswer
rewritten body at a = record a {
  chosen_index = body.chosen_index;
  essay_text = body.essay_text;
  answered_at = at;
}

-- INSERT … ON CONFLICT DO UPDATE
unfoldable pub save_answer : ℕ → AnswerIn → ℕ → List QuizAnswer → List QuizAnswer
save_answer session body at rows =
    if exists_where (answer_to session body.question_id) rows
    then update_where (answer_to session body.question_id) (rewritten body at) rows
    else rows ++ answer_row session body at ∷ []

-- What is wrong with an answer to a question, if anything.
abbrev pub blank_answer : Question → AnswerIn → Bool
blank_answer q body =
    is_mcq q && is_none body.chosen_index
    || str_eq q.qtype "essay" && is_blank (codes (or_else body.essay_text ""))

pub record AnswerSaved : Type 0 where
  pub question_id : ℕ
  pub answered_count : ℕ
  pub total_count : ℕ

abbrev pub find_question : ℕ → ℕ → Db → Option Question
find_question set id db = elim (first_where (question_id_of id) db.questions) [
  | none ↦ none
  | some q ↦ if in_set set q then some q else none
]

abbrev pub answered_count : ℕ → Db → ℕ
answered_count session db = count_where (λ a. a.session_id == session) db.quiz_answers

-- POST /quizzes/{session_id}/answers
unfoldable pub answer : Caller → ℕ → AnswerIn → ℕ → Exec Db AnswerSaved
unfolding load deny_proxy save_answer
answer me session body at = do
  ses ← load session
  subject ← authorize_subject me ses.subject_id
  deny_proxy me subject
  raise_if (not (is_opened ses)) (conflict "session_closed")
  q ← fetch (find_question ses.question_set_id body.question_id) not_found
  raise_if (blank_answer q body) (invalid "invalid")
  modify (λ db. record db { quiz_answers = save_answer session body at db.quiz_answers })
  gets (λ db. record {
    question_id = q.id;
    answered_count = answered_count session db;
    total_count = length ses.question_order;
  })
