-- ===== src/Quizzes/History.antt =====
-- The requests that study makes, in any order.
use brainxp_server.Deps.{Caller}
use brainxp_server.Grading.{EssayPrompt, EssayVerdict}
use brainxp_server.Prelude.{Bool, List, ℕ}
use brainxp_server.Prelude.Exec.{Result, outcome}
use brainxp_server.Prelude.Triple.{outcome-Post}
use brainxp_server.Quizzes.{AnswerIn, answer}
use brainxp_server.Quizzes.HandedIn.{submit-AllPaid}
use brainxp_server.Quizzes.Kept.{answer-AllPaid, get_quiz-AllPaid, start-AllPaid}
use brainxp_server.Quizzes.Opening.{get_quiz, start_quiz}
use brainxp_server.Quizzes.Payout.{IsPaid}
use brainxp_server.Quizzes.Settled.{AllPaid}
use brainxp_server.Quizzes.Submit.{submit}
use brainxp_server.Rules.Float.{Float}
use brainxp_server.Tables.{Db}

module _ (F : Float) (shuffle : List ℕ → List ℕ) (sample : ℕ → ℕ → List ℕ) (detect : List ℕ → Bool)
    (reply : EssayPrompt → Result (EssayVerdict F)) where
  -- A request with its caller: what the study screens send.
  pub data StudyRequest : Type 0 where
    start : Caller → ℕ → ℕ → ℕ → StudyRequest
    look : Caller → ℕ → StudyRequest
    save : Caller → ℕ → AnswerIn → StudyRequest
    hand_in : Caller → ℕ → Bool → StudyRequest

  -- The database after a request: as it was, when the request was refused.
  abbrev pub respond : StudyRequest → ℕ → ℕ → Db → Db
  respond (start me subject material session) at local db =
      outcome db (start_quiz F shuffle sample me subject material session at db)
  respond (look me session) at local db = outcome db (get_quiz F shuffle sample me session db)
  respond (save me session body) at local db = outcome db (answer me session body at db)
  respond (hand_in me session within) at local db =
      outcome db (submit F detect reply me session within at local db)

  pub data Studied (begin : Db) : Db → Type 0 where
    here : Studied begin begin
    next :
        {db : Db}
        → Studied begin db
        → (r : StudyRequest) (at local : ℕ) → Studied begin (respond r at local db)

  respond-AllPaid :
      (r : StudyRequest) (at local : ℕ) (db : Db) → AllPaid db → AllPaid (respond r at local db)
  respond-AllPaid (start me subject material session) at local db h =
      outcome-Post db (start_quiz F shuffle sample me subject material session at db) AllPaid h
        (start-AllPaid F shuffle sample me subject material session at db h)
  respond-AllPaid (look me session) at local db h =
      outcome-Post db (get_quiz F shuffle sample me session db) AllPaid h
        (get_quiz-AllPaid F shuffle sample me session db h)
  respond-AllPaid (save me session body) at local db h =
      outcome-Post db (answer me session body at db) AllPaid h
        (answer-AllPaid me session body at db h)
  respond-AllPaid (hand_in me session within) at local db h =
      outcome-Post db (submit F detect reply me session within at local db) AllPaid h
        (submit-AllPaid F detect reply me session within at local db h)

  -- Whatever requests the study screens send, in any order, by anyone, refused and repeated ones
  -- included, from a database where it holds: no two sessions share an identifier, the ledger never
  -- pays a session twice, nor one that was not submitted, and what it paid for a session is the reward
  -- that the session's row records.
  pub Studied-IsPaid :
      {begin db : Db} → Studied begin db → ((s : ℕ) → IsPaid s begin) → (s : ℕ) → IsPaid s db
  Studied-IsPaid here h = h
  Studied-IsPaid (next {db} r q at local) h = respond-AllPaid q at local db (Studied-IsPaid r h)
