-- ===== src/Quizzes/Settled.antt =====
-- The payments of sessions under `settle` of Quizzes.Submit.
use mathlib.Core.Path.{subst}
use brainxp_server.Grading.{EssayPrompt, EssayVerdict}
use brainxp_server.Ledger.{credit_reward, standing}
use brainxp_server.Prelude.{
  ==_iff, Bool, Bool-cases, List, Option-cases, [], arith, false, inl, inr, refl, some, true, ℕ,
  ◌+◌, ◌==◌, ◌∷◌, ◌≡◌,
}
use brainxp_server.Prelude.Exec.{Result, internal, lift}
use brainxp_server.Prelude.Int.{+ℤ_zero, max_ℤ, pos, zero_+ℤ, ℤ}
use brainxp_server.Prelude.Rows.{first_where, update_where}
use brainxp_server.Prelude.Triple.{Post-bind, Triple, Triple-bind, Triple-read, lift-Post}
use brainxp_server.Progress.{record_session}
use brainxp_server.Quizzes.{has_session_id, is_opened, question_id_of}
use brainxp_server.Quizzes.Credited.{
  Credited, Pays, credit_reward-Pays, record_session-Credited, standing-Credited,
}
use brainxp_server.Quizzes.Marking.{Mark, mark_all, mark_question, write_mark}
use brainxp_server.Quizzes.Payout.{IsPaid, close_open, payout_total, update_unpaid}
use brainxp_server.Quizzes.Receipt.{Tally, gross_seconds}
use brainxp_server.Quizzes.Submit.{closed, outcome_of, session_note, settle}
use brainxp_server.Rules.Float.{Float}
use brainxp_server.Tables.{Db}
use brainxp_server.Tables.Study.{Material, Question, QuizAnswer, QuizSession}

-- The state that `settle` needs: the books are in order, and the session is there and open.
abbrev pub IsOpen : QuizSession → Db → Type 0
IsOpen ses db =
    ((s : ℕ) → IsPaid s db)
    × (first_where (has_session_id ses.id) db.quiz_sessions ≡ some ses)
    × (is_opened ses ≡ true)

-- Only the ledger and the sessions count.
pub IsPaid-same :
    (s : ℕ) (db db' : Db)
    → db'.time_ledger ≡ db.time_ledger
    → db'.quiz_sessions ≡ db.quiz_sessions
    → IsPaid s db
    → IsPaid s db'
IsPaid-same s db db' l q p = record {
  unique = rw q p.unique;
  once = rw (l, q) p.once;
  as_recorded = rw (l, q) p.as_recorded;
}

abbrev pub AllPaid : Db → Type 0
AllPaid db = (s : ℕ) → IsPaid s db

module _ (F : Float) (ses : QuizSession) (correct at : ℕ) (k : ℤ) where
  abbrev closing : Db → Db
  closing db = record db {
    quiz_sessions = update_where (has_session_id ses.id) (closed F correct k at) db.quiz_sessions;
  }

  closing-IsPaid :
      (db db' : Db) → IsOpen ses db → Credited ses.id k db db' → IsPaid ses.id (closing db')
  closing-IsPaid db db' h c =
      let before = h.0 ses.id in
      let (a, b, d, x, y) =
        close_open ses.id correct at k F ses db.quiz_sessions h.2 h.1 before.unique in
      let (n, t) = c.1 ses.id in
      record {
        unique = rw c.0 a;
        once = rw (c.0, d) (ground (arith, before.once));
        as_recorded = rw (c.0, y) (ground (arith, before.as_recorded, zero_+ℤ (max_ℤ (pos 0) k)));
      }

  closing_other :
      (s : ℕ) (db db' : Db)
      → (ses.id == s) ≡ false
      → IsPaid s db
      → Credited ses.id k db db'
      → IsPaid s (closing db')
  closing_other s db db' e p c =
      let (a, b, d) =
        update_unpaid s (has_session_id ses.id) (closed F correct k at) (λ q m. ground arith)
          db.quiz_sessions in
      let (n, t) = c.1 s in
      record {
        unique = rw (c.0, a) p.unique;
        once = rw (c.0, b) (ground (arith, p.once));
        as_recorded =
            rw (c.0, d) (ground (arith, p.as_recorded, +ℤ_zero (payout_total s db.time_ledger)));
      }

  -- Closing the row that the payment was for puts the books in order again.
  closing-AllPaid : (db db' : Db) → IsOpen ses db → Credited ses.id k db db' → AllPaid (closing db')
  closing-AllPaid db db' h c s = elim (Bool-cases (ses.id == s)) [
    | inl e ↦
        subst (λ (x : ℕ). IsPaid x (closing db')) ((==_iff ses.id s).0 e)
          (closing-IsPaid db db' h c)
    | inr e ↦ closing_other s db db' e (h.0 s) c
  ]

-- `settle` on a session that is open leaves the books in order.
pub settle-AllPaid :
    (F : Float) (ses : QuizSession) (mat : Material) (t : Tally F) (at local : ℕ)
    → Triple (IsOpen ses) (settle F ses mat t at local) (λ _. AllPaid)
unfolding settle
settle-AllPaid F ses mat t at local db h =
    let k = F.trunc (gross_seconds F ses t) in
    let note = session_note F mat in
    let keep = Credited ses.id k db in
    Post-bind (credit_reward ses.subject_id k note (some ses.id) at) _ db (Pays ses.id k db)
      (λ _. AllPaid) (credit_reward-Pays ses.subject_id k note ses.id at db)
      (λ credited db₁ p.
        Post-bind (standing ses.subject_id at local) _ db₁ (λ _. keep) (λ _. AllPaid)
          (standing-Credited ses.id k db ses.subject_id at local db₁ p.1)
          (λ st db₂ c.
            Post-bind (record_session ses.subject_id st.day (outcome_of F mat t)) _ db₂ (λ _. keep)
              (λ _. AllPaid)
              (record_session-Credited ses.id k db ses.subject_id st.day (outcome_of F mat t) db₂ c)
              (λ badges db₃ c'. rw p.0 (λ s.
                IsPaid-same s (closing F ses t.correct at k db₃) _ refl refl
                  (closing-AllPaid F ses t.correct at k db db₃ h c' s)))))

module _ (F : Float) (detect : List ℕ → Bool) (reply : EssayPrompt → Result (EssayVerdict F))
    (P : Db → Type 0) (ses : QuizSession) (at : ℕ)
    (keeps : (q : Question) (m : Mark F) (db : Db) → P db → P (write_mark F ses q m at db)) where
  -- What the writing of a mark keeps, the loop keeps.
  pub mark_all_keeps :
      (questions : List Question) (answers : List QuizAnswer) (n : ℕ) (order : List ℕ)
      → Triple P (mark_all F detect reply ses questions answers at n order) (λ _. P)
  unfolding mark_all
  mark_all_keeps questions answers n [] db h = h
  mark_all_keeps questions answers n (id ∷ order) db h =
      elim (Option-cases (first_where (question_id_of id) questions)) [
        | inl e ↦ rw (e, mark_all) (mark_all_keeps questions answers (n + 1) order db h)
        | inr (q, e) ↦
            rw (e, mark_all)
              (Triple-read P (λ _. first_where (λ a. a.question_id == id) answers) internal _
                (λ _. P)
                (λ a db₁ found h₁.
                  Triple-bind P (lift (mark_question F detect reply ses q a)) _ (λ _. P) (λ _. P)
                    (λ db₂ h₂. lift-Post (mark_question F detect reply ses q a) db₂ P h₂)
                    (λ m db₂ h₂.
                      Triple-bind P (mark_all F detect reply ses questions answers at (n + 1) order)
                        _ (λ _. P) (λ _. P) (mark_all_keeps questions answers (n + 1) order)
                        (λ rest db₃ h₃. h₃) (write_mark F ses q m at db₂) (keeps q m db₂ h₂))
                    db₁ h₁)
                db h)
      ]

pub write_mark-IsOpen :
    (F : Float) (ses : QuizSession) (at : ℕ) (q : Question) (m : Mark F) (db : Db)
    → IsOpen ses db
    → IsOpen ses (write_mark F ses q m at db)
unfolding write_mark
write_mark-IsOpen F ses at q m db h = (λ s. IsPaid-same s db _ refl refl (h.0 s), h.1, h.2)
