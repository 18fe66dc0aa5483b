-- ===== src/Ledger/Sound.antt =====
-- For every profile at once: no debt, and a daily usage that the consumption entries account for.
use brainxp_server.Ledger.{
  Consumption, Standing, add_seconds, add_usage, append, balance, capped_seconds, consume,
  consumed_entry, grant_today, record_consumption, standing,
}
use brainxp_server.Ledger.Balance.{
  Appended, Granted, IsSolvent, append-Appended, consumed_share, grant_today-Granted,
  sum_deltas-append, total, total_consumed, total_consumed-append,
}
use brainxp_server.Ledger.Reading.{IsRead, standing_keeps}
use brainxp_server.Ledger.Solvent.{capped_seconds_bounds, neg_parts}
use brainxp_server.Ledger.Usage.{total_spent, total_spent-add_seconds, total_spent-add_seconds_ne}
use brainxp_server.Prelude.{
  ==_iff, Bool-cases, [], arith, false, inl, inr, sym, true, ℕ, ◌++◌, ◌==◌, ◌∙◌, ◌∷◌, ◌≡◌, ◌≢◌,
}
use brainxp_server.Prelude.Exec.{Result, err, ok}
use brainxp_server.Prelude.Int.{+ℤ_zero, eqb_ℤ, neg, pos, ℤ, ◌+ℤ◌, ◌≤ℤ◌}
use brainxp_server.Prelude.Triple.{Post, Post-bind, Post-map, Triple, Triple-bind}
use brainxp_server.Rules.Calendar.{day}
use brainxp_server.Tables.{Db}
use brainxp_server.Tables.Activity.{LedgerEntry, Policy, consumed}

abbrev pub IsSound : Db → Type 0
IsSound db =
    (s : ℕ) → IsSolvent s db × (total_spent s db.daily_usage ≡ total_consumed s db.time_ledger)

pub grant_today-IsSound :
    (of day : ℕ) (seconds : ℤ) (at : ℕ)
    → Triple IsSound (grant_today of day seconds at) (λ _. IsSound)
grant_today-IsSound of day seconds at db h =
    -- the effect is the same for every profile, so it is read off for each
    all_subjects (grant_today of day seconds at db)
      (λ s. grant_today-Granted s of day seconds at db)
  where
    all_subjects :
        (r : Result (ℤ × Db)) → ((s : ℕ) → Post (λ _. Granted s db) r) → Post (λ _. IsSound) r
    all_subjects (ok (g, db')) q =
        λ s. (omega (arith, (q s).0, (h s).0), rw ((q s).3, (q s).1) (h s).1)
    all_subjects (err e) q = tt

pub standing-IsSound :
    (subject at local : ℕ)
    → Triple IsSound
        (standing subject at local)
        (λ st db. IsSound db × (pol : Policy) × IsRead subject pol local st db)
standing-IsSound subject at local =
    standing_keeps IsSound subject at local
      (λ day seconds. grant_today-IsSound subject day seconds at)

no_consumed_share : (s : ℕ) (e : LedgerEntry) → e.entry_type ≢ consumed → consumed_share s e ≡ pos 0
no_consumed_share s e other = ground arith

-- An entry that is no consumption and that the profile's total can bear.
pub append-IsSound :
    (e : LedgerEntry) (db : Db)
    → e.entry_type ≢ consumed
    → pos 0 ≤ℤ total e.subject_id db +ℤ e.delta_seconds
    → IsSound db
    → Post (λ _. IsSound) (append e db)
append-IsSound e db other bears h =
    Post-map (Appended e db) _ (append e db)
      (elim [
        | true ↦ λ db' q. rw q (λ s. (
          ground (
            arith,
            sum_deltas-append s db.time_ledger e,
            (h s).0,
            bears,
            +ℤ_zero (total s db),
            ==_iff e.subject_id s,
          ),
          rw (total_consumed-append s db.time_ledger e, no_consumed_share s e other)
              ((h s).1 ∙ sym (+ℤ_zero (total_consumed s db.time_ledger))),
        ))
        | false ↦ λ db' q. rw q.0 h
      ])
      (append-Appended e db)

neg-neg : (k : ℤ) → pos 0 ≤ℤ k → neg (neg k) ≡ k
neg-neg k h = ground arith

wrote-IsSound :
    (subject day at : ℕ) (c : Consumption) (k : ℤ) (db : Db)
    → IsSound db
    → pos 0 ≤ℤ k
    → k ≤ℤ total subject db
    → IsSound (record db {
      time_ledger = db.time_ledger ++ consumed_entry subject k c at ∷ [];
      daily_usage = add_seconds subject day k db.daily_usage;
    })
wrote-IsSound subject day at c k db h nonneg fits s =
    let e = consumed_entry subject k c at in
    elim (Bool-cases (subject == s)) [
      | inl same ↦
          let eq : subject ≡ s = (==_iff subject s).0 same in
          (
            ground (
              arith,
              sum_deltas-append s db.time_ledger e,
              neg_parts (total s db) k,
              fits,
              (h s).0,
            ),
            rw (total_consumed-append s db.time_ledger e, same, neg-neg k nonneg, ← (h s).1, ← eq)
                (total_spent-add_seconds subject day k db.daily_usage),
          )
      | inr other ↦
          let ne : subject ≢ s = ground arith in
          (
            ground (arith, sum_deltas-append s db.time_ledger e, +ℤ_zero (total s db), (h s).0),
            rw
                (
                  total_consumed-append s db.time_ledger e,
                  other,
                  +ℤ_zero (total_consumed s db.time_ledger),
                  total_spent-add_seconds_ne subject day k s db.daily_usage ne,
                )
                (h s).1,
          )
    ]

consume-IsSound :
    (subject at local : ℕ) (c : Consumption) (st : Standing) (pol : Policy) (db : Db)
    → IsSound db
    → IsRead subject pol local st db
    → Post (λ _. IsSound) (consume subject at c st db)
unfolding consume add_usage balance
consume-IsSound subject at local c st pol db h read =
    let k = capped_seconds st c.seconds in
    let e = consumed_entry subject k c at in
    let bounds = capped_seconds_bounds st c.seconds in
    elim (Bool-cases (eqb_ℤ k (pos 0))) [
      | inl z ↦ rw z h
      | inr z ↦ rw z (
          Post-bind (append e) _ db (Appended e db) (λ _. IsSound) (append-Appended e db)
            (elim [
              | true ↦ λ db' q. rw q (
                  wrote-IsSound subject st.day at c k db h bounds.0
                    (ground (arith, bounds.1, (h subject).0, read.0)))
              | false ↦ λ db' q. rw q.0 h
            ]))
    ]

pub record_consumption-IsSound :
    (subject at local : ℕ) (c : Consumption)
    → Triple IsSound (record_consumption subject at local c) (λ _. IsSound)
unfolding record_consumption
record_consumption-IsSound subject at local c =
    Triple-bind IsSound (standing subject at local) (consume subject at c) _ _
      (standing-IsSound subject at local)
      (λ st db h. consume-IsSound subject at local c st h.1 db h.0 h.2)
