-- ===== src/Ledger.antt =====
-- app/services/ledger.py: the append-only time ledger, the daily usage and what may be played. The
-- moment of the request and what the time zone makes of it are arguments.
pub mod Balance
pub mod Reading
pub mod Usage
pub mod Solvent
pub mod Sound
pub mod Total
pub mod Handlers
mod Tests
use brainxp_server.Prelude.{
  Bool, List, Option, String, [], false, if◌then◌else◌, is_none, none, not, or_else, some, str_eq,
  true, ℕ, ◌&&◌, ◌++◌, ◌==◌, ◌||◌, ◌∷◌,
}
use brainxp_server.Prelude.Exec.{Exec, err, gets, internal, modify, ok, or_raise, pure, ◌>>=◌, ◌>>◌}
use brainxp_server.Prelude.Int.{eqb_ℤ, leb_ℤ, ltb_ℤ, max_ℤ, min_ℤ, neg, pos, ℤ, ◌+ℤ◌, ◌-ℤ◌}
use brainxp_server.Prelude.Rows.{exists_where, first_where}
use brainxp_server.Rules.Calendar.{
  cap_for, day_key, grant_for, idle_gap, locked_by_idle, seconds_until_reset,
}
use brainxp_server.Rules.Play.{BlockReason, block_reason, playable_seconds}
use brainxp_server.Tables.{Db}
use brainxp_server.Tables.Activity.{
  DailyUsage, LedgerEntry, Policy, Progress, consumed, earned, granted,
}

pub record Standing : Type 0 where
  pub balance : ℤ
  pub daily_cap : ℤ
  pub spent_today : ℤ
  pub playable : ℤ
  pub reason : BlockReason
  pub idle_days : ℤ
  pub idle_days_allowed : ℤ
  pub until_reset : ℕ
  pub day : ℕ

abbrev pub of_event : ℕ → String → LedgerEntry → Bool
of_event subject event e =
    e.subject_id == subject && elim e.client_event_id [ none ↦ false | some c ↦ str_eq c event ]

-- The unique index on (subject_id, client_event_id), which leaves null events out.
unfoldable pub conflicts : LedgerEntry → List LedgerEntry → Bool
conflicts e rows = elim e.client_event_id [
  | none ↦ false
  | some c ↦ exists_where (of_event e.subject_id c) rows
]

-- `if client_event_id:` an empty text sets no ON CONFLICT clause, and then the index raises.
abbrev pub is_empty_event : LedgerEntry → Bool
is_empty_event e = elim e.client_event_id [ none ↦ true | some c ↦ str_eq c "" ]

unfoldable pub append : LedgerEntry → Exec Db Bool
unfolding conflicts
append e db =
    if conflicts e db.time_ledger
    then (if is_empty_event e then err internal else ok (false, db))
    else ok (true, record db { time_ledger = db.time_ledger ++ e ∷ [] })

-- The upsert of `grant_today`, and whether it returned a row.
unfoldable pub claim_grant : ℕ → ℕ → ℕ → List DailyUsage → Bool × List DailyUsage
claim_grant subject day at [] = (
  true,
  record { subject_id = subject; day_key = day; spent_seconds = pos 0; granted_at = some at } ∷ [],
)
claim_grant subject day at (u ∷ us) =
    let (claimed, rest) = claim_grant subject day at us in
    if u.subject_id == subject && u.day_key == day
    then (if is_none u.granted_at
        then (true, record u { granted_at = some at } ∷ us)
        else (false, u ∷ us))
    else (claimed, u ∷ rest)

abbrev pub daily_grant : ℕ → ℤ → ℕ → LedgerEntry
daily_grant subject seconds at = record {
  subject_id = subject;
  delta_seconds = seconds;
  entry_type = granted;
  note = some "Saldo harian";
  ref_id = none;
  client_event_id = none;
  device_id = none;
  occurred_at = at;
}

unfoldable pub grant_today : ℕ → ℕ → ℤ → ℕ → Exec Db ℤ
unfolding append
grant_today subject day seconds at db =
    let (claimed, usage) = claim_grant subject day at db.daily_usage in
    let db' = record db { daily_usage = usage } in
    if not claimed || leb_ℤ seconds (pos 0)
    then ok (pos 0, db')
    else (do append (daily_grant subject seconds at); pure seconds) db'

-- `sum(delta_seconds)` of a profile's entries.
unfoldable pub sum_deltas : ℕ → List LedgerEntry → ℤ
sum_deltas subject [] = pos 0
sum_deltas subject (e ∷ es) =
    (if e.subject_id == subject then e.delta_seconds else pos 0) +ℤ sum_deltas subject es

unfoldable pub balance : ℕ → Db → ℤ
balance subject db = max_ℤ (pos 0) (sum_deltas subject db.time_ledger)

abbrev pub of_day : ℕ → ℕ → DailyUsage → Bool
of_day subject day u = u.subject_id == subject && u.day_key == day

-- The column `spent_seconds` of the row that is there, and zero with none.
unfoldable pub spent_on : ℕ → ℕ → List DailyUsage → ℤ
spent_on subject day [] = pos 0
spent_on subject day (u ∷ us) =
    if of_day subject day u then u.spent_seconds else spent_on subject day us

unfoldable pub spent_today : ℕ → ℕ → Db → ℤ
spent_today subject day db = spent_on subject day db.daily_usage

abbrev pub policy_of : ℕ → Policy → Bool
policy_of subject p = p.subject_id == subject

abbrev pub progress_of : ℕ → Progress → Bool
progress_of subject p = p.subject_id == subject

-- The column `last_study_day` of the progress row, if there is one and it is not null.
unfoldable pub last_study_of : ℕ → Db → Option ℕ
last_study_of subject db = elim (first_where (progress_of subject) db.progress) [
  | none ↦ none
  | some p ↦ p.last_study_day
]

-- The figures that `standing` reads once the grant of the day is in.
unfoldable pub read_standing : ℕ → Policy → ℤ → ℕ → ℕ → Db → Standing
unfolding balance spent_today last_study_of
read_standing subject pol cap today local db =
    let bal = balance subject db in
    let spent = spent_today subject today db in
    let last_study = last_study_of subject db in
    let locked = locked_by_idle last_study today pol.idle_days_allowed in
    record {
      balance = bal;
      daily_cap = cap;
      spent_today = spent;
      playable = playable_seconds bal cap spent locked;
      reason = block_reason bal cap spent locked;
      idle_days = or_else (idle_gap last_study today) (pos 0);
      idle_days_allowed = pol.idle_days_allowed;
      until_reset = seconds_until_reset local pol.day_reset_hour;
      day = today;
    }

-- `standing` once the profile's policy is found.
unfoldable pub standing_under : ℕ → ℕ → ℕ → Policy → Exec Db Standing
unfolding grant_today
standing_under subject at local pol = do
  let today = day_key local pol.day_reset_hour
  grant ← or_raise (grant_for today pol.daily_grants) internal
  grant_today subject today grant at
  cap ← or_raise (cap_for today pol.daily_caps) internal
  gets (read_standing subject pol cap today local)

unfoldable pub standing : ℕ → ℕ → ℕ → Exec Db Standing
unfolding standing_under
standing subject at local = do
  pol ← (λ db. or_raise (first_where (policy_of subject) db.policies) internal db)
  standing_under subject at local pol

unfoldable pub add_seconds : ℕ → ℕ → ℤ → List DailyUsage → List DailyUsage
add_seconds subject day seconds [] =
    record { subject_id = subject; day_key = day; spent_seconds = seconds; granted_at = none } ∷ []
add_seconds subject day seconds (u ∷ us) =
    let rest = add_seconds subject day seconds us in
    if of_day subject day u
    then record u { spent_seconds = u.spent_seconds +ℤ seconds } ∷ us
    else u ∷ rest

unfoldable pub add_usage : ℕ → ℕ → ℤ → Exec Db Unit
add_usage subject day seconds =
    modify (λ db. record db { daily_usage = add_seconds subject day seconds db.daily_usage })

-- A report of play time.
pub record Consumption : Type 0 where
  pub seconds : ℤ
  pub note : String
  pub client_event_id : Option String
  pub device_id : Option ℕ
  pub occurred_at : Option ℕ

abbrev pub consumed_entry : ℕ → ℤ → Consumption → ℕ → LedgerEntry
consumed_entry subject capped c at = record {
  subject_id = subject;
  delta_seconds = neg capped;
  entry_type = consumed;
  note = some c.note;
  ref_id = none;
  client_event_id = c.client_event_id;
  device_id = c.device_id;
  occurred_at = or_else c.occurred_at at;
}

abbrev pub capped_seconds : Standing → ℤ → ℤ
capped_seconds st seconds =
    max_ℤ (pos 0) (min_ℤ (min_ℤ seconds st.balance) (st.daily_cap -ℤ st.spent_today))

-- `record_consumption` once the standing is known.
unfoldable pub consume : ℕ → ℕ → Consumption → Standing → Exec Db Bool
unfolding append add_usage
consume subject at c st =
    let capped = capped_seconds st c.seconds in
    if eqb_ℤ capped (pos 0) then pure false else do
      wrote ← append (consumed_entry subject capped c at)
      if wrote then add_usage subject st.day capped else pure tt
      pure wrote

unfoldable pub record_consumption : ℕ → ℕ → ℕ → Consumption → Exec Db Bool
unfolding standing consume
record_consumption subject at local c = do st ← standing subject at local; consume subject at c st

abbrev pub earned_entry : ℕ → ℤ → String → Option ℕ → ℕ → LedgerEntry
earned_entry subject credited note ref at = record {
  subject_id = subject;
  delta_seconds = credited;
  entry_type = earned;
  note = some note;
  ref_id = ref;
  client_event_id = none;
  device_id = none;
  occurred_at = at;
}

-- `credit_reward`; the argument is `int(gross_seconds)`.
unfoldable pub credit_reward : ℕ → ℤ → String → Option ℕ → ℕ → Exec Db ℤ
unfolding append
credit_reward subject credited note ref at =
    if ltb_ℤ (pos 0) credited
    then (do append (earned_entry subject credited note ref at); pure credited)
    else pure credited
