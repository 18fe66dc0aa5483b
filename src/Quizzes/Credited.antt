-- ===== src/Quizzes/Credited.antt =====
-- What the steps of `settle` do to the payments in the ledger.
use brainxp_server.Ledger.{
  append, claim_grant, conflicts, credit_reward, daily_grant, earned_entry, grant_today,
  progress_of, standing,
}
use brainxp_server.Ledger.Balance.{Appended, append-Appended}
use brainxp_server.Ledger.Reading.{standing_keeps}
use brainxp_server.Prelude.{
  Bool, Bool-cases, List, String, [], arith, false, if◌then◌else◌, inl, inr, not, refl, some, true,
  ℕ, ◌++◌, ◌+◌, ◌==◌, ◌||◌, ◌∷◌, ◌≡◌, ◌≤◌,
}
use brainxp_server.Prelude.Exec.{internal, pure, ◌>>◌}
use brainxp_server.Prelude.Int.{+ℤ_zero, leb_ℤ, ltb_ℤ, max_ℤ, pos, ℤ, ◌+ℤ◌}
use brainxp_server.Prelude.Rows.{count_where, count_where-append, first_where}
use brainxp_server.Prelude.Triple.{Post, Post-bind, Post-map, Triple, Triple-read}
use brainxp_server.Progress.{Outcome, ensure_row, ensure_rows, record_session}
use brainxp_server.Quizzes.Payout.{is_payout, payout_total, payout_total-append}
use brainxp_server.Rules.Calendar.{day}
use brainxp_server.Tables.{Db}
use brainxp_server.Tables.Activity.{LedgerEntry}

-- The ledger has one payment more for the session, if it is worth one, and the sessions are as they
-- were.
abbrev pub Credited : ℕ → ℤ → Db → Db → Type 0
Credited i k db db' =
    (db'.quiz_sessions ≡ db.quiz_sessions)
    × ((s : ℕ)
        → (count_where (is_payout s) db'.time_ledger
            ≤ count_where (is_payout s) db.time_ledger + (if i == s then 1 else 0))
          × (payout_total s db'.time_ledger
              ≡ payout_total s db.time_ledger +ℤ (if i == s then max_ℤ (pos 0) k else pos 0)))

payments-append :
    (s : ℕ) (es : List LedgerEntry) (e : LedgerEntry)
    → count_where (is_payout s) (es ++ e ∷ [])
      ≡ count_where (is_payout s) es + (if is_payout s e then 1 else 0)
unfolding count_where
payments-append s es e = omega (arith, count_where-append (is_payout s) es (e ∷ []))

-- An entry that pays no session leaves the payments alone.
append-Credited :
    (i : ℕ) (k : ℤ) (db : Db) (e : LedgerEntry)
    → ((s : ℕ) → is_payout s e ≡ false)
    → Triple (Credited i k db) (append e) (λ _. Credited i k db)
append-Credited i k db e other db₁ h =
    Post-map (Appended e db₁) _ (append e db₁)
      (elim [
        | true ↦ λ db₂ q. rw q (
          h.0,
          λ s.
              rw
                (
                  payments-append s db₁.time_ledger e,
                  payout_total-append s db₁.time_ledger e,
                  other s,
                  +ℤ_zero (payout_total s db₁.time_ledger),
                )
                (omega (arith, (h.1 s).0), (h.1 s).1),
        )
        | false ↦ λ db₂ q. rw q.0 h
      ])
      (append-Appended e db₁)

grant_today-Credited :
    (i : ℕ) (k : ℤ) (db : Db) (subject day : ℕ) (seconds : ℤ) (at : ℕ)
    → Triple (Credited i k db) (grant_today subject day seconds at) (λ _. Credited i k db)
unfolding grant_today
grant_today-Credited i k db subject day seconds at db₁ h =
    let (claimed, usage) = claim_grant subject day at db₁.daily_usage in
    let db₂ = record db₁ { daily_usage = usage } in
    elim (Bool-cases (not claimed || leb_ℤ seconds (pos 0))) [
      | inl e ↦ rw e h
      | inr e ↦ rw e (
          Post-bind (append (daily_grant subject seconds at)) (λ _. pure seconds) db₂
            (λ _. Credited i k db) (λ _. Credited i k db)
            (append-Credited i k db (daily_grant subject seconds at) (λ s. refl) db₂ h)
            (λ _ db₃ q. q))
    ]

pub standing-Credited :
    (i : ℕ) (k : ℤ) (db : Db) (subject at local : ℕ)
    → Triple (Credited i k db) (standing subject at local) (λ _. Credited i k db)
standing-Credited i k db subject at local db₁ h =
    Post-map _ _ (standing subject at local db₁) (λ st db₂ q. q.0)
      (standing_keeps (Credited i k db) subject at local
        (λ day seconds. grant_today-Credited i k db subject day seconds at) db₁ h)

pub record_session-Credited :
    (i : ℕ) (k : ℤ) (db : Db) (subject today : ℕ) (o : Outcome)
    → Triple (Credited i k db) (record_session subject today o) (λ _. Credited i k db)
unfolding record_session ensure_row
record_session-Credited i k db subject today o db₁ h =
    Triple-read (Credited i k db) (λ s. first_where (progress_of subject) s.progress) internal _ _
      (λ row db₂ found q. q) (record db₁ { progress = ensure_rows subject db₁.progress }) h

abbrev pub Pays : ℕ → ℤ → Db → ℤ → Db → Type 0
Pays i k db credited db' = (credited ≡ k) × Credited i k db db'

paid_entry :
    (subject : ℕ) (k : ℤ) (note : String) (i at : ℕ) (db : Db)
    → ltb_ℤ (pos 0) k ≡ true
    → Post (Pays i k db) ((append (earned_entry subject k note (some i) at) >> pure k) db)
unfolding conflicts
paid_entry subject k note i at db e =
    let entry = earned_entry subject k note (some i) at in
    Post-bind (append entry) (λ _. pure k) db (Appended entry db) (Pays i k db)
      (append-Appended entry db)
      (elim [
        | true ↦ λ db₂ q. rw q (
          refl,
          (
            refl,
            λ s. (
              omega (arith, payments-append s db.time_ledger entry),
              ground (arith, payout_total-append s db.time_ledger entry),
            ),
          ),
        )
        | false ↦ λ db₂ q. absurd (cc q.1)
      ])

pub credit_reward-Pays :
    (subject : ℕ) (k : ℤ) (note : String) (i at : ℕ) (db : Db)
    → Post (Pays i k db) (credit_reward subject k note (some i) at db)
unfolding credit_reward
credit_reward-Pays subject k note i at db = go (ltb_ℤ (pos 0) k) refl
  where
    entry : LedgerEntry
    entry = earned_entry subject k note (some i) at

    go :
        (b : Bool)
        → ltb_ℤ (pos 0) k ≡ b
        → Post (Pays i k db) ((if b then append entry >> pure k else pure k) db)
    go true e = paid_entry subject k note i at db e
    go false e =
        (refl, (refl, λ s. (omega arith, ground (arith, +ℤ_zero (payout_total s db.time_ledger)))))
