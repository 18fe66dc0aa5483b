-- ===== src/Quizzes/HandedIn.antt =====
-- The payments of sessions under `submit`.
use mathlib.Core.Path.{subst}
use brainxp_server.Deps.{Caller, authorize_subject, is_proxy}
use brainxp_server.Deps.Access.{authorize_keeps}
use brainxp_server.Grading.{EssayPrompt, EssayVerdict, graded}
use brainxp_server.Prelude.{==_iff, Bool, List, arith, length, not, some, sym, ℕ, ◌==◌, ◌≡◌}
use brainxp_server.Prelude.Exec.{
  Exec, Result, conflict, fetch, forbidden, gets, internal, lift, not_found, raise_if, rate_limited,
  ◌>>=◌, ◌>>◌,
}
use brainxp_server.Prelude.Rows.{first_where, first_where_test, rows_where}
use brainxp_server.Prelude.Triple.{Triple, Triple-bind, Triple-guard, Triple-read, lift-Post}
use brainxp_server.Quizzes.{deny_proxy, has_session_id, in_set, is_opened, load}
use brainxp_server.Quizzes.Marking.{mark_all}
use brainxp_server.Quizzes.Opening.{material_id_of}
use brainxp_server.Quizzes.Receipt.{empty_tally, tally_all}
use brainxp_server.Quizzes.Settled.{
  AllPaid, IsOpen, mark_all_keeps, settle-AllPaid, write_mark-IsOpen,
}
use brainxp_server.Quizzes.Submit.{Receipt, missing_answers, settle, submit}
use brainxp_server.Rules.Float.{Float}
use brainxp_server.Tables.{Db}
use brainxp_server.Tables.Study.{QuizSession}

open_row :
    (session : ℕ) (ses : QuizSession) (db : Db)
    → first_where (has_session_id session) db.quiz_sessions ≡ some ses
    → first_where (has_session_id ses.id) db.quiz_sessions ≡ some ses
open_row session ses db e =
    let same : ses.id ≡ session =
      (==_iff ses.id session).0
        (first_where_test (has_session_id session) db.quiz_sessions ses e) in
    subst (λ (x : ℕ). first_where (has_session_id x) db.quiz_sessions ≡ some ses) (sym same) e

module _ (F : Float) (detect : List ℕ → Bool) (reply : EssayPrompt → Result (EssayVerdict F))
    (session : ℕ) (ses : QuizSession) (at local : ℕ) where
  -- `submit` once the session is known to be open.
  abbrev hand_in_open : Exec Db (Receipt F)
  hand_in_open = do
    qs ← fetch (λ db. first_where (λ q. q.id == ses.question_set_id) db.question_sets) internal
    mat ← fetch (λ db. first_where (material_id_of qs.material_id) db.materials) internal
    questions ← gets (λ db. rows_where (in_set qs.id) db.questions)
    answers ← gets (λ db. rows_where (λ a. a.session_id == session) db.quiz_answers)
    raise_if (not (length (missing_answers questions answers ses.question_order) == 0))
        (conflict "incomplete_session")
    graded ← mark_all F detect reply ses questions answers at 1 ses.question_order
    t ← lift (tally_all F ses graded (empty_tally F))
    settle F ses mat t at local

  handed_in : Triple (IsOpen ses) hand_in_open (λ _. AllPaid)
  handed_in =
      let P = IsOpen ses in
      Triple-read P (λ s. first_where (λ q. q.id == ses.question_set_id) s.question_sets) internal _
        _
        λ qs db _ h.
          Triple-read P (λ s. first_where (material_id_of qs.material_id) s.materials) internal _ _
            (λ mat db₁ _ h₁.
              let questions = rows_where (in_set qs.id) db₁.questions in
              let answers = rows_where (λ a. a.session_id == session) db₁.quiz_answers in
              let missing = missing_answers questions answers ses.question_order in
              Triple-guard P (not (length missing == 0)) (conflict "incomplete_session") _ _
                (λ _.
                  Triple-bind P
                    (mark_all F detect reply ses questions answers at 1 ses.question_order) _
                    (λ _. P) (λ _. AllPaid)
                    (mark_all_keeps F detect reply P ses at (write_mark-IsOpen F ses at) questions
                      answers 1 ses.question_order)
                    (λ graded.
                      let sum = tally_all F ses graded (empty_tally F) in
                      Triple-bind P (lift sum) _ (λ _. P) (λ _. AllPaid)
                        (λ db₂ h₂. lift-Post sum db₂ P h₂)
                        (λ t. settle-AllPaid F ses mat t at local)))
                db₁ h₁)
            db h

module _ (F : Float) (detect : List ℕ → Bool) (reply : EssayPrompt → Result (EssayVerdict F)) where
  pub submit-AllPaid :
      (me : Caller) (session : ℕ) (within : Bool) (at local : ℕ)
      → Triple AllPaid (submit F detect reply me session within at local) (λ _. AllPaid)
  unfolding submit load deny_proxy
  submit-AllPaid me session within at local =
      Triple-read AllPaid (λ s. first_where (has_session_id session) s.quiz_sessions) not_found _
        (λ _. AllPaid)
        λ ses db found h.
          let P = λ (s : Db).
            AllPaid s × (first_where (has_session_id ses.id) s.quiz_sessions ≡ some ses) in
          Triple-bind P (authorize_subject me ses.subject_id) _ (λ _. P) (λ _. AllPaid)
            (authorize_keeps P me ses.subject_id)
            (λ row. Triple-guard P (is_proxy me row) forbidden _ _ λ _.
              Triple-guard P (not within) rate_limited _ _ λ _.
                Triple-guard P (not (is_opened ses)) (conflict "session_closed") _ _
                  λ e s p. handed_in F detect reply session ses at local s (p.0, p.1, ground arith))
            db (h, open_row session ses db found)
