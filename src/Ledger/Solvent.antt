-- ===== src/Ledger/Solvent.antt =====
-- The ledger never sums to a debt, and what is consumed fits the cap of the day.
use brainxp_server.Ledger.{
  Consumption, Standing, add_seconds, add_usage, append, balance, capped_seconds, consume,
  consumed_entry, grant_today, record_consumption, spent_on, standing,
}
use brainxp_server.Ledger.Balance.{
  Appended, IsSolvent, append-Appended, grant_today-Granted, sum_deltas-append, total,
}
use brainxp_server.Ledger.Reading.{HasPolicy, IsRead, standing-IsRead}
use brainxp_server.Ledger.Usage.{spent_on-add_seconds}
use brainxp_server.Prelude.{
  ==_self, Bool, Bool-cases, [], arith, false, inl, inr, refl, some, true, ℕ, ◌++◌, ◌+◌, ◌∷◌, ◌≡◌,
}
use brainxp_server.Prelude.Int.{
  +ℤ_parts, -ℤ_parts, eqb_ℤ, neg, neg_part, pos, pos_part, ℤ, ◌+ℤ◌, ◌<ℤ◌, ◌≤ℤ◌,
}
use brainxp_server.Prelude.Triple.{Post, Post-bind, Post-map, Triple, Triple-bind}
use brainxp_server.Rules.Calendar.{cap_for, day_key}
use brainxp_server.Tables.{Db}
use brainxp_server.Tables.Activity.{Policy}

pub neg_parts :
    (a b : ℤ)
    → pos_part (a +ℤ neg b) + neg_part a + pos_part b
      ≡ neg_part (a +ℤ neg b) + pos_part a + neg_part b
neg_parts a b = ground (arith, +ℤ_parts a (neg b))

-- The consumption that a standing allows is at least zero, and no more than was asked for, than the
-- balance and than the rest of the cap, where these are not negative.
pub capped_seconds_bounds :
    (st : Standing) (seconds : ℤ)
    → let c = capped_seconds st seconds in
      (pos 0 ≤ℤ c)
      × (pos 0 <ℤ c → (c ≤ℤ seconds) × (c ≤ℤ st.balance) × (c +ℤ st.spent_today ≤ℤ st.daily_cap))
capped_seconds_bounds st seconds =
    let left = -ℤ_parts st.daily_cap st.spent_today in
    (
      ground arith,
      λ h. (
        ground (arith, left),
        ground (arith, left),
        ground (arith, left, +ℤ_parts (capped_seconds st seconds) st.spent_today),
      ),
    )

module _ (subject : ℕ) where
  -- What a consumption has done to the ledger's total and to the day's usage.
  abbrev pub Consumed : Standing → ℤ → Db → Bool → Db → Type 0
  Consumed st c db wrote db' =
      (wrote ≡ true
        → (pos 0 <ℤ c)
          × (total subject db' ≡ total subject db +ℤ neg c)
          × (spent_on subject st.day db'.daily_usage ≡ spent_on subject st.day db.daily_usage +ℤ c))
      × (wrote ≡ false → db' ≡ db)
      × (db'.policies ≡ db.policies)

  unchanged : (st : Standing) (c : ℤ) (db : Db) → Consumed st c db false db
  unchanged st c db = (λ h. cc, λ _. refl, refl)

  -- The profile's usage goes up by what its entry takes from the ledger.
  wrote-Consumed :
      (at : ℕ) (c : Consumption) (st : Standing) (k : ℤ) (db : Db)
      → pos 0 <ℤ k
      → let db' = record db {
        time_ledger = db.time_ledger ++ consumed_entry subject k c at ∷ [];
        daily_usage = add_seconds subject st.day k db.daily_usage;
      } in
        Consumed st k db true db'
  wrote-Consumed at c st k db h =
      let e = consumed_entry subject k c at in
      (
        λ _. (
          h,
          ground (arith, sum_deltas-append subject db.time_ledger e, ==_self subject),
          ground (
            arith,
            ==_self subject,
            ==_self st.day,
            spent_on-add_seconds subject st.day k subject st.day db.daily_usage,
          ),
        ),
        λ h. cc,
        refl,
      )

  pub consume-Consumed :
      (at : ℕ) (c : Consumption) (st : Standing) (db : Db)
      → Post (Consumed st (capped_seconds st c.seconds) db) (consume subject at c st db)
  unfolding consume add_usage
  consume-Consumed at c st db =
      let k = capped_seconds st c.seconds in
      let e = consumed_entry subject k c at in
      let R = Consumed st k db in
      elim (Bool-cases (eqb_ℤ k (pos 0))) [
        | inl z ↦ rw z (unchanged st k db)
        | inr z ↦ rw z (
            Post-bind (append e) _ db (Appended e db) R (append-Appended e db) (elim [
              | true ↦ λ db' h. rw h (
                  wrote-Consumed at c st k db
                    (ground (arith, (capped_seconds_bounds st c.seconds).0)))
              | false ↦ λ db' h. rw h.0 (unchanged st k db)
            ]))
      ]

  -- A consumption under a standing that was read off the database keeps the ledger out of debt.
  settle :
      (pol : Policy) (local : ℕ) (cap : ℤ) (st : Standing) (seconds : ℤ) (db : Db) (wrote : Bool)
      (db' : Db)
      → cap_for (day_key local pol.day_reset_hour) pol.daily_caps ≡ some cap
      → IsSolvent subject db
      → HasPolicy subject pol db
      → IsRead subject pol local st db
      → Consumed st (capped_seconds st seconds) db wrote db'
      → IsSolvent subject db'
        × HasPolicy subject pol db'
        × (wrote ≡ true
            → spent_on subject (day_key local pol.day_reset_hour) db'.daily_usage ≤ℤ cap)
  unfolding balance
  settle pol local cap st seconds db true db' capped solvent has read q =
      let k = capped_seconds st seconds in
      let effect = q.0 refl in
      let bounds = (capped_seconds_bounds st seconds).1 effect.0 in
      let same_cap : st.daily_cap ≡ cap = cc (rw read.3 at read.4) in
      (
        rw effect.1 (ground (arith, neg_parts (total subject db) k)),
        rw q.2 has,
        λ _.
            rw (← read.3, effect.2, ← read.1, ← same_cap)
              (ground (arith, +ℤ_parts st.spent_today k, +ℤ_parts k st.spent_today)),
      )
  settle pol local cap st seconds db false db' capped solvent has read q =
      rw (q.1 refl) (solvent, has, λ h. cc)

  -- From a ledger without debt, a report of any number of seconds, however often it is repeated and
  -- whatever else has happened, leaves one without debt; and when it is recorded, what the profile
  -- spent on the day is within the day's cap.
  pub record_consumption_bounds :
      (pol : Policy) (cap : ℤ) (at local : ℕ) (c : Consumption)
      → let today = day_key local pol.day_reset_hour in
        cap_for today pol.daily_caps ≡ some cap
        → Triple
            (λ db. IsSolvent subject db × HasPolicy subject pol db)
            (record_consumption subject at local c)
            (λ wrote db.
              IsSolvent subject db
              × HasPolicy subject pol db
              × (wrote ≡ true → spent_on subject today db.daily_usage ≤ℤ cap))
  unfolding record_consumption balance
  record_consumption_bounds pol cap at local c capped =
      let P : Db → Type 0 = λ db. IsSolvent subject db × HasPolicy subject pol db in
      let today = day_key local pol.day_reset_hour in
      Triple-bind P (standing subject at local) (consume subject at c) _ _
        (λ db h.
          standing-IsRead P subject at local
            (λ day seconds db₀ h₀.
              Post-map _ _ (grant_today subject day seconds at db₀)
                (λ _ db₁ g. (omega (arith, g.0), rw g.4 h₀.1))
                (grant_today-Granted subject subject day seconds at db₀))
            pol db (h, h.1))
        (λ st db h.
          Post-map _ _ (consume subject at c st db)
            (λ wrote db' q. settle pol local cap st c.seconds db wrote db' capped h.0.0 h.0.1 h.1 q)
            (consume-Consumed at c st db))
