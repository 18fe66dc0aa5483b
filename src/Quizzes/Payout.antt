-- ===== src/Quizzes/Payout.antt =====
-- What a session is paid: the entries of the ledger that name it, and the rows that say it is done.
use brainxp_server.Prelude.{
  Bool, Bool-cases, List, [], arith, equals_id, false, if◌then◌else◌, inl, inr, not, or_else, refl,
  some, sym, true, ℕ, ◌++◌, ◌==◌, ◌∙◌, ◌∷◌, ◌≡◌, ◌≤◌,
}
use brainxp_server.Prelude.Int.{+ℤ_assoc, +ℤ_zero, max_ℤ, pos, zero_+ℤ, ℤ, ◌+ℤ◌}
use brainxp_server.Prelude.Rows.{count_where, first_where, update_where}
use brainxp_server.Quizzes.{has_session_id, is_opened}
use brainxp_server.Quizzes.Submit.{closed}
use brainxp_server.Rules.Float.{Float}
use brainxp_server.Tables.{Db}
use brainxp_server.Tables.Activity.{LedgerEntry, earned}
use brainxp_server.Tables.Study.{QuizSession}

-- `earned`, with the session as its reference.
abbrev pub is_payout : ℕ → LedgerEntry → Bool
is_payout s e = elim e.entry_type [ earned ↦ equals_id e.ref_id s | _ ↦ false ]

abbrev pub payout_share : ℕ → LedgerEntry → ℤ
payout_share s e = if is_payout s e then e.delta_seconds else pos 0

unfoldable pub payout_total : ℕ → List LedgerEntry → ℤ
payout_total s [] = pos 0
payout_total s (e ∷ es) = payout_share s e +ℤ payout_total s es

pub payout_total-append :
    (s : ℕ) (es : List LedgerEntry) (e : LedgerEntry)
    → payout_total s (es ++ e ∷ []) ≡ payout_total s es +ℤ payout_share s e
unfolding payout_total
payout_total-append s [] e = +ℤ_zero (payout_share s e) ∙ sym (zero_+ℤ (payout_share s e))
payout_total-append s (x ∷ es) e =
    rw (payout_total-append s es e)
      (sym (+ℤ_assoc (payout_share s x) (payout_total s es) (payout_share s e)))

abbrev pub is_done : ℕ → QuizSession → Bool
is_done s q = if q.id == s then not (is_opened q) else false

-- What a submitted row says that it was paid.
abbrev pub reward_share : ℕ → QuizSession → ℤ
reward_share s q = if is_done s q then max_ℤ (pos 0) (or_else q.reward_seconds (pos 0)) else pos 0

unfoldable pub reward_total : ℕ → List QuizSession → ℤ
reward_total s [] = pos 0
reward_total s (q ∷ qs) = reward_share s q +ℤ reward_total s qs

pub reward_total-append :
    (s : ℕ) (es : List QuizSession) (e : QuizSession)
    → reward_total s (es ++ e ∷ []) ≡ reward_total s es +ℤ reward_share s e
unfolding reward_total
reward_total-append s [] e = +ℤ_zero (reward_share s e) ∙ sym (zero_+ℤ (reward_share s e))
reward_total-append s (x ∷ es) e =
    rw (reward_total-append s es e)
      (sym (+ℤ_assoc (reward_share s x) (reward_total s es) (reward_share s e)))

abbrev pub sessions_of : ℕ → List QuizSession → ℕ
sessions_of s = count_where (has_session_id s)

abbrev pub done_of : ℕ → List QuizSession → ℕ
done_of s = count_where (is_done s)

-- Identifiers are unique, no session has more payments than submitted rows, and what the ledger paid
-- for a session is what its row says.
pub record IsPaid (s : ℕ) (db : Db) : Type 0 where
  pub unique : sessions_of s db.quiz_sessions ≤ 1
  pub once : count_where (is_payout s) db.time_ledger ≤ done_of s db.quiz_sessions
  pub as_recorded : payout_total s db.time_ledger ≡ reward_total s db.quiz_sessions

-- An update of other rows, or one that leaves the three columns alone.
module _ (s : ℕ) (p : QuizSession → Bool) (f : QuizSession → QuizSession)
    (same : (q : QuizSession)
      → p q ≡ true
      → (has_session_id s (f q) ≡ has_session_id s q)
        × (is_done s (f q) ≡ is_done s q)
        × (reward_share s (f q) ≡ reward_share s q)) where
  pub update_unpaid :
      (qs : List QuizSession)
      → (sessions_of s (update_where p f qs) ≡ sessions_of s qs)
        × (done_of s (update_where p f qs) ≡ done_of s qs)
        × (reward_total s (update_where p f qs) ≡ reward_total s qs)
  unfolding count_where reward_total update_where
  update_unpaid [] = (refl, refl, refl)
  update_unpaid (q ∷ qs) =
      let (a, b, c) = update_unpaid qs in
      elim (Bool-cases (p q)) [
        | inl e ↦ let (x, y, z) = same q e in rw e (rw (x, a) refl, rw (y, b) refl, rw (z, c) refl)
        | inr e ↦ rw e (rw a refl, rw b refl, rw c refl)
      ]

module _ (s correct at : ℕ) (k : ℤ) (F : Float) where
  abbrev close : List QuizSession → List QuizSession
  close = update_where (has_session_id s) (closed F correct k at)

  -- With no row of the session there is nothing to close.
  close_absent :
      (qs : List QuizSession)
      → sessions_of s qs ≡ 0
      → (sessions_of s (close qs) ≡ 0)
        × (done_of s qs ≡ 0)
        × (done_of s (close qs) ≡ 0)
        × (reward_total s qs ≡ pos 0)
        × (reward_total s (close qs) ≡ pos 0)
  unfolding count_where reward_total update_where
  close_absent [] h = (refl, refl, refl, refl, refl)
  close_absent (q ∷ qs) h = elim (Bool-cases (q.id == s)) [
    | inl e ↦ absurd (ground arith)
    | inr e ↦
        let none' : sessions_of s qs ≡ 0 = ground arith in
        let (a, b, c, d, x) = close_absent qs none' in
        rw (e, e)
          (
            omega (arith, a),
            omega (arith, b),
            omega (arith, c),
            rw d (zero_+ℤ (pos 0)),
            rw x (zero_+ℤ (pos 0)),
          )
  ]

  -- Closing the one row of an open session.
  pub close_open :
      (ses : QuizSession) (qs : List QuizSession)
      → is_opened ses ≡ true
      → first_where (has_session_id s) qs ≡ some ses
      → sessions_of s qs ≤ 1
      → (sessions_of s (close qs) ≤ 1)
        × (done_of s qs ≡ 0)
        × (done_of s (close qs) ≡ 1)
        × (reward_total s qs ≡ pos 0)
        × (reward_total s (close qs) ≡ max_ℤ (pos 0) k)
  unfolding count_where reward_total update_where first_where
  close_open ses [] o h u = cc
  close_open ses (q ∷ qs) o h u = elim (Bool-cases (q.id == s)) [
    | inl e ↦
        let same : q ≡ ses = cc (rw e at h) in
        let opened' : is_opened q ≡ true = rw same o in
        let (a, b, c, d, x) = close_absent qs (ground arith) in
        rw (e, e, opened')
          (
            omega (arith, a),
            omega (arith, b),
            omega (arith, c),
            rw d (zero_+ℤ (pos 0)),
            rw x (+ℤ_zero (max_ℤ (pos 0) k)),
          )
    | inr e ↦
        let fewer : sessions_of s qs ≤ 1 = ground arith in
        let (a, b, c, d, x) = close_open ses qs o (rw e at h) fewer in
        rw (e, e)
          (
            omega (arith, a),
            omega (arith, b),
            omega (arith, c),
            rw d (zero_+ℤ (pos 0)),
            rw x (zero_+ℤ (max_ℤ (pos 0) k)),
          )
  ]
