-- ===== src/Ledger/Balance.antt =====
-- What the operations do to the sum behind the balance.
use brainxp_server.Ledger.{
  append, claim_grant, conflicts, daily_grant, grant_today, is_empty_event, spent_on, sum_deltas,
}
use brainxp_server.Ledger.Usage.{spent_on-claim_grant, total_spent, total_spent-claim_grant}
use brainxp_server.Prelude.{
  Bool, Bool-cases, List, [], arith, false, if◌then◌else◌, inl, inr, not, refl, sym, true, ℕ, ◌++◌,
  ◌==◌, ◌||◌, ◌∙◌, ◌∷◌, ◌≡◌,
}
use brainxp_server.Prelude.Exec.{err, internal, ok}
use brainxp_server.Prelude.Int.{
  +ℤ_assoc, +ℤ_parts, +ℤ_zero, int_laws, leb_ℤ, neg, pos, zero_+ℤ, ℤ, ◌+ℤ◌, ◌≤ℤ◌,
}
use brainxp_server.Prelude.Triple.{Post}
use brainxp_server.Rules.Calendar.{day}
use brainxp_server.Tables.{Db}
use brainxp_server.Tables.Activity.{LedgerEntry, consumed}

-- An append either adds its entry at the end or changes nothing.
abbrev pub Appended : LedgerEntry → Db → Bool → Db → Type 0
Appended e db true db' = db' ≡ record db { time_ledger = db.time_ledger ++ e ∷ [] }
Appended e db false db' = (db' ≡ db) × (conflicts e db.time_ledger ≡ true)

pub append-Appended : (e : LedgerEntry) (db : Db) → Post (Appended e db) (append e db)
unfolding append
append-Appended e db = go (conflicts e db.time_ledger) refl (is_empty_event e)
  where
    go :
        (b : Bool)
        → conflicts e db.time_ledger ≡ b
        → (c : Bool)
        → Post (Appended e db) (
            if b
            then (if c then err internal else ok (false, db))
            else ok (true, record db { time_ledger = db.time_ledger ++ e ∷ [] }))
    go true h true = tt
    go true h false = (refl, h)
    go false h c = refl

module _ (subject : ℕ) where
  abbrev pub share : LedgerEntry → ℤ
  share e = if e.subject_id == subject then e.delta_seconds else pos 0

  -- The entry at the end counts as one at the head does.
  pub sum_deltas-append :
      (es : List LedgerEntry) (e : LedgerEntry)
      → sum_deltas subject (es ++ e ∷ []) ≡ sum_deltas subject es +ℤ share e
  unfolding sum_deltas
  sum_deltas-append [] e = omega int_laws
  sum_deltas-append (x ∷ es) e = rw (sum_deltas-append es e) (omega int_laws)

  abbrev pub total : Db → ℤ
  total db = sum_deltas subject db.time_ledger

  -- The ledger of the profile never sums to a debt.
  abbrev pub IsSolvent : Db → Type 0
  IsSolvent db = pos 0 ≤ℤ total db

  -- The seconds that the consumption entries of the profile take away.
  abbrev pub consumed_share : LedgerEntry → ℤ
  consumed_share e =
      if e.subject_id == subject
      then elim e.entry_type [ consumed ↦ neg e.delta_seconds | _ ↦ pos 0 ]
      else pos 0

  unfoldable pub total_consumed : List LedgerEntry → ℤ
  total_consumed [] = pos 0
  total_consumed (e ∷ es) = consumed_share e +ℤ total_consumed es

  pub total_consumed-append :
      (es : List LedgerEntry) (e : LedgerEntry)
      → total_consumed (es ++ e ∷ []) ≡ total_consumed es +ℤ consumed_share e
  unfolding total_consumed
  total_consumed-append [] e = +ℤ_zero (consumed_share e) ∙ sym (zero_+ℤ (consumed_share e))
  total_consumed-append (x ∷ es) e =
      rw (total_consumed-append es e)
        (sym (+ℤ_assoc (consumed_share x) (total_consumed es) (consumed_share e)))

  -- What a grant of the day may change: it adds to the total, and leaves the usage in seconds, the
  -- consumption and the policies alone.
  abbrev pub Granted : Db → Db → Type 0
  Granted db db' =
      (total db ≤ℤ total db')
      × (total_consumed db'.time_ledger ≡ total_consumed db.time_ledger)
      × ((d : ℕ) → spent_on subject d db'.daily_usage ≡ spent_on subject d db.daily_usage)
      × (total_spent subject db'.daily_usage ≡ total_spent subject db.daily_usage)
      × (db'.policies ≡ db.policies)

  pub grant_today-Granted :
      (of day : ℕ) (seconds : ℤ) (at : ℕ) (db : Db)
      → Post (λ _. Granted db) (grant_today of day seconds at db)
  unfolding grant_today append conflicts
  grant_today-Granted of day seconds at db =
      let (claimed, usage) = claim_grant of day at db.daily_usage in
      let e = daily_grant of seconds at in
      elim (Bool-cases (not claimed || leb_ℤ seconds (pos 0))) [
        | inl h ↦ rw h (
          omega arith,
          refl,
          λ d. spent_on-claim_grant of day at subject d db.daily_usage,
          total_spent-claim_grant of day at subject db.daily_usage,
          refl,
        )
        | inr h ↦ rw h (
          ground (
            arith,
            sum_deltas-append db.time_ledger e,
            +ℤ_parts (total db) seconds,
            +ℤ_zero (total db),
          ),
          ground (
            arith,
            total_consumed-append db.time_ledger e,
            +ℤ_zero (total_consumed db.time_ledger),
          ),
          λ d. spent_on-claim_grant of day at subject d db.daily_usage,
          total_spent-claim_grant of day at subject db.daily_usage,
          refl,
        )
      ]
