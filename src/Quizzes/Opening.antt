-- ===== src/Quizzes/Opening.antt =====
-- `start_quiz` and `get_quiz` of app/routers/quizzes.py.
use brainxp_server.Deps.{Caller, authorize_subject}
use brainxp_server.Ledger.{policy_of}
use brainxp_server.Prelude.{
  Bool, List, Option, [], if◌then◌else◌, is_none, length, map, none, not, some, ℕ, ◌&&◌, ◌++◌, ◌==◌,
  ◌∷◌,
}
use brainxp_server.Prelude.Exec.{
  AppError, Exec, conflict, err, fetch, gets, internal, modify, not_found, ok, or_raise, pure,
  raise_if, ◌>>=◌, ◌>>◌,
}
use brainxp_server.Prelude.Int.{pos, pos_part}
use brainxp_server.Prelude.Order.{latest_by, sort_by}
use brainxp_server.Prelude.Rows.{count_where, exists_where, first_where, rows_where, update_where}
use brainxp_server.Quizzes.{
  Permutations, deny_proxy, draw_options, extend_order, has_session_id, in_set, is_opened, load,
  or_text,
}
use brainxp_server.Quizzes.Shown.{QuizOut, public_questions, saved_answers}
use brainxp_server.Rules.Float.{Float}
use brainxp_server.Rules.Gate.{level_factor, novelty_factor}
use brainxp_server.Rules.Reward.{max_possible_reward}
use brainxp_server.Tables.{Db}
use brainxp_server.Tables.Activity.{Policy}
use brainxp_server.Tables.Study.{
  Material, MaterialStatus, Question, QuestionSet, QuizSession, failed, generating, opened, ready,
  rejected, uploaded, validating,
}

abbrev pub material_id_of : ℕ → Material → Bool
material_id_of id m = m.id == id

-- `if not mat or mat["subject_id"] != subject_id or mat["deleted_at"]`
abbrev pub find_material : ℕ → ℕ → Db → Option Material
find_material subject id db = elim (first_where (material_id_of id) db.materials) [
  | none ↦ none
  | some m ↦ if m.subject_id == subject && is_none m.deleted_at then some m else none
]

-- What a material's status says against a session on it.
unfoldable pub material_refusal : MaterialStatus → Option AppError
material_refusal rejected = some (conflict "material_rejected")
material_refusal generating = none
material_refusal ready = none
material_refusal uploaded = some (conflict "not_ready")
material_refusal validating = some (conflict "not_ready")
material_refusal failed = some (conflict "not_ready")

abbrev pub raise_some : Option AppError → Exec Db Unit
raise_some none db = ok (tt, db)
raise_some (some e) db = err e

-- The last question set of a material, if it has a question.
abbrev pub ready_set : ℕ → Db → Option QuestionSet
ready_set material db =
    elim (latest_by (λ q. q.generated_at)
      (rows_where (λ q. q.material_id == material) db.question_sets)) [
        | none ↦ none
        | some q ↦ if q.ready_count == 0 then none else some q
      ]

abbrev pub session_on : ℕ → ℕ → QuizSession → Bool
session_on subject set s = s.subject_id == subject && s.question_set_id == set

abbrev pub open_session : ℕ → ℕ → Db → Option QuizSession
open_session subject set db =
    latest_by (λ s. s.started_at)
      (rows_where (λ s. session_on subject set s && is_opened s) db.quiz_sessions)

abbrev pub times_submitted : ℕ → ℕ → Db → ℕ
times_submitted subject set db =
    count_where (λ s. session_on subject set s && not (is_opened s)) db.quiz_sessions

-- INSERT under the primary key.
unfoldable pub insert_session : QuizSession → Exec Db Unit
insert_session s db =
    if exists_where (has_session_id s.id) db.quiz_sessions
    then err internal
    else ok (tt, record db { quiz_sessions = db.quiz_sessions ++ s ∷ [] })

module _ (F : Float) (shuffle : List ℕ → List ℕ) (sample : ℕ → ℕ → List ℕ) where
  open F use {Number, ratio, eq, trunc, hundredths}

  abbrev pub reordered : List ℕ × Permutations → QuizSession → QuizSession
  reordered (order, perms) s = record s { question_order = order; option_permutation = perms }

  -- The session's order and permutations, brought up to date and stored when they grew.
  unfoldable pub refresh_order : QuizSession → List Question → Exec Db (List ℕ × Permutations)
  unfolding extend_order
  refresh_order ses rows =
      let state = extend_order sample rows (ses.question_order, ses.option_permutation) in
      if length state.0 == length ses.question_order then pure state else do
        modify (λ db. record db {
          quiz_sessions = update_where (has_session_id ses.id) (reordered state) db.quiz_sessions;
        })
        pure state

  -- GET /quizzes/{session_id}
  unfoldable pub get_quiz : Caller → ℕ → Exec Db (QuizOut F)
  unfolding load refresh_order saved_answers public_questions
  get_quiz me session = do
    ses ← load session
    authorize_subject me ses.subject_id
    qs ← fetch (λ db. first_where (λ q. q.id == ses.question_set_id) db.question_sets) internal
    mat ← fetch (λ db. first_where (material_id_of qs.material_id) db.materials) internal
    rows ← gets (λ db. rows_where (in_set qs.id) db.questions)
    state ← refresh_order ses rows
    saved ← gets (saved_answers session)
    shown ← or_raise (public_questions F rows state.1 state.0) internal
    let lf = ratio ses.level_factor 100
    let nf = ratio ses.novelty_factor 100
    pure (record {
      session_id = session;
      material_id = qs.material_id;
      title = mat.topic_summary;
      base_reward_seconds = ses.base_reward_seconds;
      level = lf;
      novelty = nf;
      max_reward_seconds =
          trunc (max_possible_reward F ses.base_reward_seconds (length state.0) (ratio 0 1) lf nf);
      ready_count = qs.ready_count;
      total_count = qs.requested_count;
      status = qs.status;
      answers = saved;
      questions = shown;
    })

  -- The row of a new session. The policy's base reward is at least 15 seconds.
  abbrev pub new_session :
      ℕ → ℕ → QuestionSet → Policy → List ℕ → Permutations → Number → Number → ℕ → ℕ → QuizSession
  new_session id subject qs pol order perms level novelty times at = record {
    id = id;
    subject_id = subject;
    question_set_id = qs.id;
    question_order = order;
    option_permutation = perms;
    level_factor = hundredths level;
    novelty_factor = hundredths novelty;
    base_reward_seconds = pos_part pol.base_reward_seconds;
    correct_count = none;
    reward_seconds = none;
    is_replay = not (times == 0);
    status = opened;
    started_at = at;
    submitted_at = none;
  }

  -- `start_quiz` when no session of the set is open.
  unfoldable pub open_quiz : ℕ → Material → QuestionSet → ℕ → ℕ → Exec Db (QuizOut F)
  unfolding draw_options insert_session public_questions
  open_quiz subject mat qs session at = do
    pol ← fetch (λ db. first_where (policy_of subject) db.policies) internal
    rows ← gets (λ db. sort_by (λ q. q.ordinal) (rows_where (in_set qs.id) db.questions))
    let order = shuffle (map (λ q. q.id) rows)
    let perms = draw_options sample rows
    times ← gets (times_submitted subject qs.id)
    let novelty = novelty_factor F (pos times)
    let level = level_factor F pol.academic_level (or_text mat.assessed_level pol.academic_level)
    raise_if (eq level (ratio 0 1)) (conflict "level_too_low")
    insert_session (new_session session subject qs pol order perms level novelty times at)
    shown ← or_raise (public_questions F rows perms order) internal
    pure (record {
      session_id = session;
      material_id = mat.id;
      title = mat.topic_summary;
      base_reward_seconds = pos_part pol.base_reward_seconds;
      level = level;
      novelty = novelty;
      max_reward_seconds = trunc (
          max_possible_reward F (pos_part pol.base_reward_seconds) (length rows)
            (ratio pol.essay_ratio 100) level novelty);
      ready_count = qs.ready_count;
      total_count = qs.requested_count;
      status = qs.status;
      answers = [];
      questions = shown;
    })

  -- POST /subjects/{subject_id}/quizzes
  unfoldable pub start_quiz : Caller → ℕ → ℕ → ℕ → ℕ → Exec Db (QuizOut F)
  unfolding deny_proxy material_refusal get_quiz open_quiz
  start_quiz me subject material session at = do
    row ← authorize_subject me subject
    deny_proxy me row
    mat ← fetch (find_material subject material) not_found
    raise_some (material_refusal mat.status)
    qs ← fetch (ready_set material) (conflict "not_ready")
    running ← gets (open_session subject qs.id)
    elim running [ some ses ↦ get_quiz me ses.id | none ↦ open_quiz subject mat qs session at ]
