-- ===== src/Ledger/Tests.antt =====
-- The ledger at a concrete profile.
use brainxp_server.Ledger.{
  Consumption, balance, grant_today, record_consumption, spent_on, sum_deltas,
}
use brainxp_server.Ledger.Balance.{IsSolvent, total, total_consumed}
use brainxp_server.Ledger.Handlers.History.{Reaches-IsSound, here, next, respond, sync}
use brainxp_server.Ledger.Reading.{HasPolicy}
use brainxp_server.Ledger.Sound.{IsSound}
use brainxp_server.Ledger.Total.{grant_today_once, record_consumption_lem}
use brainxp_server.Ledger.Usage.{total_spent}
use brainxp_server.Prelude.{Bool, [], arith, none, refl, some, true, ℕ, ◌*◌, ◌+◌, ◌∷◌, ◌≡◌, ◌≢◌}
use brainxp_server.Prelude.Exec.{ok}
use brainxp_server.Prelude.Int.{pos, ℤ, ◌≤ℤ◌}
use brainxp_server.Prelude.Rows.{first_where}
use brainxp_server.Rules.Calendar.{cap_for, day, day_key, hour}
use brainxp_server.Samples.{db_five, owner, policy_five}
use brainxp_server.Tables.{Db}

-- Noon of a day.
abbrev noon : ℕ
noon = 100 * day + 12 * hour

abbrev play : Consumption
play = record {
  seconds = pos 600;
  note = "game";
  client_event_id = some "e1";
  device_id = some 7;
  occurred_at = none;
}

no_event_text : play.client_event_id ≢ some ""
no_event_text = λ h. cc

record_consumption_lem_example :
    let today = day_key noon 4 in
    (wrote : Bool) × (db' : Db) × (record_consumption 5 noon noon play db_five ≡ ok (wrote, db'))
    × (IsSolvent 5 db'
        × HasPolicy 5 policy_five db'
        × (wrote ≡ true → spent_on 5 today db'.daily_usage ≤ℤ pos 3600))
record_consumption_lem_example =
    record_consumption_lem 5 noon noon play policy_five (pos 3600) db_five
      (unfold first_where in refl) refl refl no_event_text (unfold cap_for day_key in refl)
      (unfold sum_deltas in omega arith)

grant_today_once_example :
    (granted : ℤ) × (db' : Db) × (grant_today 5 100 (pos 1800) noon db_five ≡ ok (granted, db'))
    × (grant_today 5 100 (pos 900) (noon + hour) db' ≡ ok (pos 0, db'))
grant_today_once_example = grant_today_once 5 100 (pos 1800) (pos 900) noon (noon + hour) db_five

empty-IsSound : IsSound db_five
unfolding sum_deltas total_spent total_consumed
empty-IsSound s = (omega arith, refl)

Reaches-IsSound_example :
    let db = respond (sync owner 5 (play ∷ [])) noon noon db_five in
    (pos 0 ≤ℤ total 5 db)
    × (balance 5 db ≡ total 5 db)
    × (total_spent 5 db.daily_usage ≡ total_consumed 5 db.time_ledger)
Reaches-IsSound_example =
    Reaches-IsSound empty-IsSound (next here (sync owner 5 (play ∷ [])) noon noon) 5
