-- ===== src/Quizzes/Submit.antt =====
-- `submit` of app/routers/quizzes.py: the reward, the progress and the session are written once the
-- answers are marked and the receipt is added up. The verdict of the rate limit is an argument.
use brainxp_server.Deps.{Caller, authorize_subject}
use brainxp_server.Grading.{EssayPrompt, EssayVerdict, graded}
use brainxp_server.Ledger.{credit_reward, progress_of, standing}
use brainxp_server.Prelude.{
  Bool, List, Option, String, [], if◌then◌else◌, length, map, none, not, some, str_eq, ℕ, ◌&&◌,
  ◌==◌, ◌∷◌,
}
use brainxp_server.Prelude.Exec.{
  Exec, Result, conflict, fetch, gets, internal, lift, modify, pure, raise_if, rate_limited, ◌>>=◌,
  ◌>>◌,
}
use brainxp_server.Prelude.Int.{ℤ}
use brainxp_server.Prelude.Rows.{exists_where, first_where, rows_where, update_where}
use brainxp_server.Prelude.Text.{codes, has_prefix}
use brainxp_server.Progress.{Badge, Outcome, badges, record_session}
use brainxp_server.Quizzes.{
  deny_proxy, has_session_id, in_set, is_opened, load, or_text, question_id_of,
}
use brainxp_server.Quizzes.Marking.{level_of, mark_all, novelty_of}
use brainxp_server.Quizzes.Opening.{material_id_of}
use brainxp_server.Quizzes.Receipt.{ReceiptRow, Tally, empty_tally, gross_seconds, tally_all}
use brainxp_server.Rules.Float.{Float}
use brainxp_server.Tables.{Db}
use brainxp_server.Tables.Study.{Material, Question, QuizAnswer, QuizSession, submitted}

-- `[qid for qid in order if qid in questions and qid not in answers]`
unfoldable pub missing_answers : List Question → List QuizAnswer → List ℕ → List ℕ
missing_answers questions answers [] = []
missing_answers questions answers (id ∷ order) =
    let rest = missing_answers questions answers order in
    if exists_where (question_id_of id) questions
      && not (exists_where (λ a. a.question_id == id) answers)
    then id ∷ rest
    else rest

module _ (F : Float) where
  open F use {Number, trunc, round_cents}

  abbrev pub session_note : Material → String
  session_note mat = or_text mat.topic_summary (or_text mat.original_name "Sesi belajar")

  -- What `record_session` is told.
  unfoldable pub outcome_of : Material → Tally F → Outcome
  outcome_of mat t = record {
    correct = t.correct;
    hard = t.hard;
    essay_passed = t.essay_passed;
    from_photo = has_prefix (codes mat.source_type) (codes "image/");
    cross_language = not (str_eq (or_text mat.detected_language "id") "id");
    perfect = t.correct == length t.rows && not (t.correct == 0);
  }

  abbrev pub closed : ℕ → ℤ → ℕ → QuizSession → QuizSession
  closed correct credited at s = record s {
    status = submitted;
    submitted_at = some at;
    correct_count = some correct;
    reward_seconds = some credited;
  }

  abbrev pub studied : ℕ → Material → Material
  studied at m = record m { last_studied_at = some at }

  pub record Receipt : Type 0 where
    pub session_id : ℕ
    pub title : Option String
    pub base_reward_seconds : ℕ
    pub rows : List (ReceiptRow F)
    pub subtotal_seconds : Number
    pub level : Number
    pub novelty : Number
    pub gross : Number
    pub credited_seconds : ℤ
    pub balance_seconds : ℤ
    pub correct_count : ℕ
    pub question_count : ℕ
    pub streak_current : ℕ
    pub new_badges : List String

  -- Everything that `submit` writes once the receipt is added up.
  unfoldable pub settle : QuizSession → Material → Tally F → ℕ → ℕ → Exec Db Receipt
  unfolding outcome_of
  settle ses mat t at local = do
    let gross = gross_seconds F ses t
    credited ← credit_reward ses.subject_id (trunc gross) (session_note mat) (some ses.id) at
    st ← standing ses.subject_id at local
    badges ← record_session ses.subject_id st.day (outcome_of mat t)
    modify (λ db. record db {
      quiz_sessions =
          update_where (has_session_id ses.id) (closed t.correct credited at) db.quiz_sessions;
    })
    modify (λ db. record db {
      materials = update_where (material_id_of mat.id) (studied at) db.materials;
    })
    prog ← gets (λ db. first_where (progress_of ses.subject_id) db.progress)
    pure (record {
      session_id = ses.id;
      title = elim mat.topic_summary [
        | none ↦ mat.original_name
        | some s ↦ if str_eq s "" then mat.original_name else some s
      ];
      base_reward_seconds = ses.base_reward_seconds;
      rows = t.rows;
      subtotal_seconds = round_cents t.subtotal;
      level = level_of F ses;
      novelty = novelty_of F ses;
      gross = round_cents gross;
      credited_seconds = credited;
      balance_seconds = st.balance;
      correct_count = t.correct;
      question_count = length t.rows;
      streak_current = elim prog [ none ↦ 0 | some p ↦ p.streak_current ];
      new_badges = map (λ (b : Badge). b.name) badges;
    })

  module _ (detect_injection : List ℕ → Bool) (reply : EssayPrompt → Result (EssayVerdict F)) where
    -- POST /quizzes/{session_id}/submit
    unfoldable pub submit : Caller → ℕ → Bool → ℕ → ℕ → Exec Db Receipt
    unfolding load deny_proxy missing_answers mark_all tally_all settle
    submit me session within at local = do
      ses ← load session
      row ← authorize_subject me ses.subject_id
      deny_proxy me row
      raise_if (not within) rate_limited
      raise_if (not (is_opened ses)) (conflict "session_closed")
      qs ← fetch (λ db. first_where (λ q. q.id == ses.question_set_id) db.question_sets) internal
      mat ← fetch (λ db. first_where (material_id_of qs.material_id) db.materials) internal
      questions ← gets (λ db. rows_where (in_set qs.id) db.questions)
      answers ← gets (λ db. rows_where (λ a. a.session_id == session) db.quiz_answers)
      raise_if (not (length (missing_answers questions answers ses.question_order) == 0))
          (conflict "incomplete_session")
      graded ← mark_all F detect_injection reply ses questions answers at 1 ses.question_order
      t ← lift (tally_all F ses graded (empty_tally F))
      settle ses mat t at local
