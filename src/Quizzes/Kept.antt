-- ===== src/Quizzes/Kept.antt =====
-- The payments of sessions under the endpoints that start, open and answer one.
use brainxp_server.Deps.{Caller, authorize_subject, is_proxy}
use brainxp_server.Deps.Access.{authorize_keeps}
use brainxp_server.Ledger.{policy_of}
use brainxp_server.Prelude.{
  ==_iff, Bool-cases, List, Option, Option-cases, [], arith, false, inl, inr, length, map, none,
  not, refl, some, true, ℕ, ◌==◌, ◌∷◌, ◌≡◌,
}
use brainxp_server.Prelude.Exec.{AppError, conflict, forbidden, internal, invalid, not_found}
use brainxp_server.Prelude.Int.{+ℤ_zero, pos}
use brainxp_server.Prelude.Order.{sort_by}
use brainxp_server.Prelude.Rows.{
  count_where, count_where-append, count_where-exists_where, exists_where, first_where, rows_where,
}
use brainxp_server.Prelude.Triple.{Triple, Triple-bind, Triple-guard, Triple-read}
use brainxp_server.Quizzes.{
  AnswerIn, answer, blank_answer, deny_proxy, draw_options, extend_order, find_question,
  has_session_id, in_set, is_opened, load, or_text,
}
use brainxp_server.Quizzes.Opening.{
  find_material, get_quiz, insert_session, material_id_of, material_refusal, new_session, open_quiz,
  open_session, raise_some, ready_set, refresh_order, reordered, start_quiz, times_submitted,
}
use brainxp_server.Quizzes.Payout.{is_done, reward_total, reward_total-append, update_unpaid}
use brainxp_server.Quizzes.Settled.{AllPaid, IsPaid-same}
use brainxp_server.Quizzes.Shown.{public_questions}
use brainxp_server.Rules.Float.{Float}
use brainxp_server.Rules.Gate.{level_factor, novelty_factor}
use brainxp_server.Tables.{Db}
use brainxp_server.Tables.Study.{Material, Question, QuestionSet, QuizSession}

-- A new session, under an identifier that no row has.
insert_session-AllPaid :
    (row : QuizSession) → is_opened row ≡ true → Triple AllPaid (insert_session row) (λ _. AllPaid)
unfolding insert_session count_where
insert_session-AllPaid row o db h =
    let qs = db.quiz_sessions in
    elim (Bool-cases (exists_where (has_session_id row.id) qs)) [
      | inl e ↦ rw e tt
      | inr e ↦ rw e (λ s. record {
        unique = ground (
          arith,
          count_where-append (has_session_id s) qs (row ∷ []),
          (h s).unique,
          count_where-exists_where (has_session_id row.id) qs,
          ==_iff row.id s,
        );
        once = ground (arith, count_where-append (is_done s) qs (row ∷ []), (h s).once);
        as_recorded =
            let undone : is_done s row ≡ false = ground arith in
            rw (reward_total-append s qs row, undone, +ℤ_zero (reward_total s qs))
              (h s).as_recorded;
      })
    ]

raise_some-keeps : (P : Db → Type 0) (o : Option AppError) → Triple P (raise_some o) (λ _. P)
raise_some-keeps P none db h = h
raise_some-keeps P (some e) db h = tt

pub answer-AllPaid :
    (me : Caller) (session : ℕ) (body : AnswerIn) (at : ℕ)
    → Triple AllPaid (answer me session body at) (λ _. AllPaid)
unfolding answer load deny_proxy
answer-AllPaid me session body at =
    Triple-read AllPaid (λ s. first_where (has_session_id session) s.quiz_sessions) not_found _
      (λ _. AllPaid)
      λ ses db found h.
        Triple-bind AllPaid (authorize_subject me ses.subject_id) _ (λ _. AllPaid) (λ _. AllPaid)
          (authorize_keeps AllPaid me ses.subject_id)
          (λ row. Triple-guard AllPaid (is_proxy me row) forbidden _ _ λ _.
            Triple-guard AllPaid (not (is_opened ses)) (conflict "session_closed") _ _ λ _.
              Triple-read AllPaid (find_question ses.question_set_id body.question_id) not_found _ _
                λ q db₁ _ h₁.
                  Triple-guard AllPaid (blank_answer q body) (invalid "invalid") _ _
                    (λ _ db₂ h₂ s. IsPaid-same s db₂ _ refl refl (h₂ s)) db₁ h₁)
          db h

module _ (F : Float) (shuffle : List ℕ → List ℕ) (sample : ℕ → ℕ → List ℕ) where
  refresh_order-AllPaid :
      (ses : QuizSession) (rows : List Question)
      → Triple AllPaid (refresh_order F shuffle sample ses rows) (λ _. AllPaid)
  unfolding refresh_order
  refresh_order-AllPaid ses rows db h =
      let state = extend_order sample rows (ses.question_order, ses.option_permutation) in
      elim (Bool-cases (length state.0 == length ses.question_order)) [
        | inl e ↦ rw e h
        | inr e ↦ rw e (λ s.
            let (a, b, c) =
              update_unpaid s (has_session_id ses.id) (reordered F shuffle sample state)
                (λ q m. (refl, refl, refl)) db.quiz_sessions in
            record {
              unique = rw a (h s).unique;
              once = rw b (h s).once;
              as_recorded = rw c (h s).as_recorded;
            })
      ]

  pub get_quiz-AllPaid :
      (me : Caller) (session : ℕ)
      → Triple AllPaid (get_quiz F shuffle sample me session) (λ _. AllPaid)
  unfolding get_quiz load
  get_quiz-AllPaid me session =
      Triple-read AllPaid (λ s. first_where (has_session_id session) s.quiz_sessions) not_found _
        (λ _. AllPaid)
        λ ses db found h.
          Triple-bind AllPaid (authorize_subject me ses.subject_id) _ (λ _. AllPaid) (λ _. AllPaid)
            (authorize_keeps AllPaid me ses.subject_id)
            (λ row.
              Triple-read AllPaid
                (λ s. first_where (λ q. q.id == ses.question_set_id) s.question_sets) internal _ _
                λ qs db₁ _ h₁.
                  Triple-read AllPaid (λ s. first_where (material_id_of qs.material_id) s.materials)
                    internal _ _
                    (λ mat db₂ _ h₂.
                      let rows = rows_where (in_set qs.id) db₂.questions in
                      Triple-bind AllPaid (refresh_order F shuffle sample ses rows) _ (λ _. AllPaid)
                        (λ _. AllPaid) (refresh_order-AllPaid ses rows)
                        (λ state db₃ h₃.
                          Triple-read AllPaid (λ _. public_questions F rows state.1 state.0)
                            internal _ _ (λ shown db₄ _ h₄. h₄) db₃ h₃)
                        db₂ h₂)
                    db₁ h₁)
            db h

  open_quiz-AllPaid :
      (subject : ℕ) (mat : Material) (qs : QuestionSet) (session at : ℕ)
      → Triple AllPaid (open_quiz F shuffle sample subject mat qs session at) (λ _. AllPaid)
  unfolding open_quiz
  open_quiz-AllPaid subject mat qs session at =
      Triple-read AllPaid (λ s. first_where (policy_of subject) s.policies) internal _ _
        λ pol db _ h.
          let rows = sort_by (λ q. q.ordinal) (rows_where (in_set qs.id) db.questions) in
          let order = shuffle (map (λ q. q.id) rows) in
          let perms = draw_options sample rows in
          let times = times_submitted subject qs.id db in
          let novelty = novelty_factor F (pos times) in
          let level =
            level_factor F pol.academic_level (or_text mat.assessed_level pol.academic_level) in
          let row =
            new_session F shuffle sample session subject qs pol order perms level novelty times
              at in
          Triple-guard AllPaid (F.eq level (F.ratio 0 1)) (conflict "level_too_low") _ _
            (λ _.
              Triple-bind AllPaid (insert_session row) _ (λ _. AllPaid) (λ _. AllPaid)
                (insert_session-AllPaid row refl)
                (λ _ db₁ h₁.
                  Triple-read AllPaid (λ _. public_questions F rows perms order) internal _ _
                    (λ shown db₂ _ h₂. h₂) db₁ h₁))
            db h

  pub start-AllPaid :
      (me : Caller) (subject material session at : ℕ)
      → Triple AllPaid (start_quiz F shuffle sample me subject material session at) (λ _. AllPaid)
  unfolding start_quiz deny_proxy
  start-AllPaid me subject material session at =
      Triple-bind AllPaid (authorize_subject me subject) _ (λ _. AllPaid) (λ _. AllPaid)
        (authorize_keeps AllPaid me subject)
        λ row. Triple-guard AllPaid (is_proxy me row) forbidden _ _ λ _.
          Triple-read AllPaid (find_material subject material) not_found _ _ λ mat db _ h.
            Triple-bind AllPaid (raise_some (material_refusal mat.status)) _ (λ _. AllPaid)
              (λ _. AllPaid) (raise_some-keeps AllPaid (material_refusal mat.status))
              (λ _.
                Triple-read AllPaid (ready_set material) (conflict "not_ready") _ _ λ qs db₁ _ h₁.
                  elim (Option-cases (open_session subject qs.id db₁)) [
                    | inl e ↦ rw e (open_quiz-AllPaid subject mat qs session at db₁ h₁)
                    | inr (ses, e) ↦ rw e (get_quiz-AllPaid me ses.id db₁ h₁)
                  ])
              db h
