-- ===== src/Ledger/Total.antt =====
-- The runs of app/services/ledger.py that return.
use brainxp_server.Ledger.{
  Consumption, Standing, add_usage, append, capped_seconds, claim_grant, conflicts, consume,
  consumed_entry, daily_grant, grant_today, is_empty_event, read_standing, record_consumption,
  spent_on, standing, standing_under,
}
use brainxp_server.Ledger.Balance.{IsSolvent}
use brainxp_server.Ledger.Reading.{HasPolicy}
use brainxp_server.Ledger.Solvent.{record_consumption_bounds}
use brainxp_server.Ledger.Usage.{claim_grant_once}
use brainxp_server.Prelude.{
  Bool, Bool-cases, List, Option, String, [], ap, arith, eq_iff, false, inl, inr, length, none, not,
  refl, some, str_eq, true, ℕ, ◌++◌, ◌||◌, ◌∷◌, ◌≡◌, ◌≢◌, ◌⊎◌,
}
use brainxp_server.Prelude.Exec.{ok, pure}
use brainxp_server.Prelude.Int.{eqb_ℤ, leb_ℤ, pos, ℤ, ◌≤ℤ◌}
use brainxp_server.Prelude.Triple.{Post, Post-Returns, Post-map, Returns, Returns-bind}
use brainxp_server.Rules.Calendar.{cap_for, cap_for_total, day, day_key, grant_for_total}
use brainxp_server.Tables.{Db}
use brainxp_server.Tables.Activity.{LedgerEntry, Policy}

-- An entry without an event, or with one that is no empty text, never makes the insert raise.
no_conflict :
    (e : LedgerEntry) (rows : List LedgerEntry)
    → (e.client_event_id ≡ none) ⊎ (is_empty_event e ≡ false)
    → is_empty_event e ≡ true
    → conflicts e rows ≡ false
unfolding conflicts
no_conflict e rows h k = ground arith

event_of :
    (event : Option String)
    → event ≢ some ""
    → (event ≡ none) ⊎ (elim event [ none ↦ true | some c ↦ str_eq c "" ] ≡ false)
event_of none h = inl refl
event_of (some c) h = elim (Bool-cases (str_eq c "")) [
  | inl e ↦ absurd (h (ap some ((eq_iff c "").0 e)))
  | inr e ↦ inr e
]

append-Returns :
    (e : LedgerEntry) (db : Db)
    → (e.client_event_id ≡ none) ⊎ (is_empty_event e ≡ false)
    → Returns (append e) db
unfolding append conflicts
append-Returns e db h = elim (Bool-cases (conflicts e db.time_ledger)) [
  | inl c ↦ (false, db, ground (arith, no_conflict e db.time_ledger))
  | inr c ↦ (true, record db { time_ledger = db.time_ledger ++ e ∷ [] }, ground arith)
]

grant_today-Returns :
    (subject day : ℕ) (seconds : ℤ) (at : ℕ) (db : Db)
    → Returns (grant_today subject day seconds at) db
unfolding grant_today
grant_today-Returns subject day seconds at db =
    let (claimed, usage) = claim_grant subject day at db.daily_usage in
    let db' = record db { daily_usage = usage } in
    elim (Bool-cases (not claimed || leb_ℤ seconds (pos 0))) [
      | inl e ↦ (pos 0, db', rw e refl)
      | inr e ↦ rw e (
          Returns-bind (append (daily_grant subject seconds at)) (λ _. pure seconds) db'
            (append-Returns (daily_grant subject seconds at) db' (inl refl))
            (λ a s' q. (seconds, s', refl)))
    ]

-- A profile with a policy for a week has a standing.
standing-Returns :
    (subject at local : ℕ) (pol : Policy) (db : Db)
    → HasPolicy subject pol db
    → length pol.daily_caps ≡ 7
    → length pol.daily_grants ≡ 7
    → Returns (standing subject at local) db
unfolding standing standing_under
standing-Returns subject at local pol db has caps grants =
    let today = day_key local pol.day_reset_hour in
    let (cap, capped) = cap_for_total today pol.daily_caps caps in
    let (seconds, allotted) = grant_for_total today pol.daily_grants grants in
    rw (has, allotted)
      (Returns-bind (grant_today subject today seconds at) _ db
        (grant_today-Returns subject today seconds at db)
        (λ a s' q. rw capped (read_standing subject pol cap today local s', s', refl)))

consume-Returns :
    (subject at : ℕ) (c : Consumption) (st : Standing) (db : Db)
    → c.client_event_id ≢ some ""
    → Returns (consume subject at c st) db
unfolding consume add_usage
consume-Returns subject at c st db event =
    let k = capped_seconds st c.seconds in
    let e = consumed_entry subject k c at in
    elim (Bool-cases (eqb_ℤ k (pos 0))) [
      | inl z ↦ rw z (false, db, refl)
      | inr z ↦ rw z (
          Returns-bind (append e) _ db (append-Returns e db (event_of c.client_event_id event))
            (elim [ true ↦ λ s' q. (true, _, refl) | false ↦ λ s' q. (false, _, refl) ]))
    ]

record_consumption-Returns :
    (subject at local : ℕ) (c : Consumption) (pol : Policy) (db : Db)
    → HasPolicy subject pol db
    → length pol.daily_caps ≡ 7
    → length pol.daily_grants ≡ 7
    → c.client_event_id ≢ some ""
    → Returns (record_consumption subject at local c) db
unfolding record_consumption
record_consumption-Returns subject at local c pol db has caps grants event =
    Returns-bind (standing subject at local) (consume subject at c) db
      (standing-Returns subject at local pol db has caps grants)
      (λ st s' q. consume-Returns subject at c st s' event)

-- Take a profile whose policy has seven caps and seven grants, and whose ledger does not sum to a
-- debt. A report of any number of seconds, under an event that is no empty text, is always answered,
-- however often it is repeated; it leaves a ledger without debt; and when it is recorded, what the
-- profile spent on the day is within the cap of the day.
pub record_consumption_lem :
    (subject at local : ℕ) (c : Consumption) (pol : Policy) (cap : ℤ) (db : Db)
    → let today = day_key local pol.day_reset_hour in
      HasPolicy subject pol db
      → length pol.daily_caps ≡ 7
      → length pol.daily_grants ≡ 7
      → c.client_event_id ≢ some ""
      → cap_for today pol.daily_caps ≡ some cap
      → IsSolvent subject db
      → (wrote : Bool) × (db' : Db) × (record_consumption subject at local c db ≡ ok (wrote, db'))
        × (IsSolvent subject db'
            × HasPolicy subject pol db'
            × (wrote ≡ true → spent_on subject today db'.daily_usage ≤ℤ cap))
record_consumption_lem subject at local c pol cap db has caps grants event capped solvent =
    Post-Returns _ (record_consumption subject at local c) db
      (record_consumption_bounds subject pol cap at local c capped db (solvent, has))
      (record_consumption-Returns subject at local c pol db has caps grants event)

grant_today_usage :
    (subject day : ℕ) (seconds : ℤ) (at : ℕ) (db : Db)
    → Post
        (λ _ db'. db'.daily_usage ≡ (claim_grant subject day at db.daily_usage).1)
        (grant_today subject day seconds at db)
unfolding grant_today append conflicts
grant_today_usage subject day seconds at db =
    elim (Bool-cases (not (claim_grant subject day at db.daily_usage).0 || leb_ℤ seconds (pos 0))) [
      | inl h ↦ rw h refl
      | inr h ↦ rw h refl
    ]

claimed_already :
    (subject day : ℕ) (seconds : ℤ) (at : ℕ) (db : Db)
    → claim_grant subject day at db.daily_usage ≡ (false, db.daily_usage)
    → grant_today subject day seconds at db ≡ ok (pos 0, db)
unfolding grant_today
claimed_already subject day seconds at db h = rw h refl

-- However the first grant of a day went, every later one of that day, of any amount, adds nothing to
-- the ledger and leaves the database as it is.
pub grant_today_once :
    (subject day : ℕ) (seconds more : ℤ) (at later : ℕ) (db : Db)
    → (granted : ℤ) × (db' : Db) × (grant_today subject day seconds at db ≡ ok (granted, db'))
      × (grant_today subject day more later db' ≡ ok (pos 0, db'))
grant_today_once subject day seconds more at later db =
    Post-Returns _ (grant_today subject day seconds at) db
      (Post-map _ _ (grant_today subject day seconds at db)
        (λ g db' e.
          claimed_already subject day more later db'
            (rw e (claim_grant_once subject day at later db.daily_usage)))
        (grant_today_usage subject day seconds at db))
      (grant_today-Returns subject day seconds at db)
