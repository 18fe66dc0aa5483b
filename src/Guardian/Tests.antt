-- ===== src/Guardian/Tests.antt =====
-- Alerts at a concrete device.
use brainxp_server.Deps.{Caller}
use brainxp_server.Guardian.{
  is_silent, open_of, raise_alert, silent_devices, sweep, sweep_all, sweep_one,
}
use brainxp_server.Guardian.Alerts.{IsCalm, alert_open}
use brainxp_server.Guardian.Heartbeat.{EventIn, PushJob, event_limit, heartbeat, status_of}
use brainxp_server.Guardian.Heartbeat.Calm.{Watched-IsCalm, beaten_by, swept, unwatched}
use brainxp_server.Guardian.Heartbeat.Tracks.{after_events, after_status, heartbeat_lem}
use brainxp_server.Prelude.{
  List, Option, String, [], arith, none, refl, some, take, ℕ, ◌*◌, ◌==◌, ◌∷◌, ◌≡◌, ◌≢◌, ◌≤◌,
}
use brainxp_server.Prelude.Exec.{ok, outcome}
use brainxp_server.Prelude.Rows.{count_where, exists_where, first_where, rows_where}
use brainxp_server.Rules.Calendar.{hour}
use brainxp_server.Samples.{db_five}
use brainxp_server.Tables.{Db}
use brainxp_server.Tables.Activity.{AlertKind, overlay_off}
use brainxp_server.Tables.People.{Device, Role, degraded, fine}

abbrev phone : Device
phone = record {
  id = 7;
  subject_id = 5;
  device_secret_hash = "s";
  install_binding_hash = "b";
  platform = "android";
  model_name = none;
  guardian_status = fine;
  last_heartbeat_at = some 0;
  unbound_at = none;
}

abbrev db_phone : Db
db_phone = record db_five { devices = phone ∷ [] }

abbrev me_phone : Caller
me_phone = record { user_id = none; subject_id = some 5; role = Role.child; device_id = some 7 }

abbrev overlay_gone : EventIn
overlay_gone = record { event_type = "permission_revoked"; permission = some "overlay" }

heartbeat_lem_example :
    (jobs : List PushJob) × (db' : Db) × (heartbeat me_phone degraded
        (overlay_gone ∷ [])
        1000
        db_phone
      ≡ ok (jobs, db'))
    × ((k : AlertKind)
        → alert_open 5 k db'
          ≡ after_events k (take event_limit (overlay_gone ∷ [])) (
              after_status k
                (status_of (first_where (λ d. d.id == 7) db_phone.devices))
                degraded
                (alert_open 5 k db_phone)))
    × ((s : ℕ) (k : AlertKind) → 5 ≢ s → alert_open s k db' ≡ alert_open s k db_phone)
heartbeat_lem_example =
    heartbeat_lem me_phone 7 5 1000 degraded (overlay_gone ∷ []) db_phone refl refl

-- A provider that knows no token.
abbrev all_dead : List String → Option (List String)
all_dead tokens = some tokens

nothing_open : IsCalm db_phone
unfolding count_where
nothing_open s k = omega arith

Watched-IsCalm_example :
    let db = outcome db_phone (heartbeat me_phone degraded (overlay_gone ∷ []) 1000 db_phone) in
    count_where (open_of 5 overlay_off) (sweep all_dead (2 * hour) db).1.guardian_alerts ≤ 1
Watched-IsCalm_example =
    Watched-IsCalm all_dead nothing_open
      (swept (2 * hour) (beaten_by me_phone degraded (overlay_gone ∷ []) 1000 unwatched)) 5
      overlay_off

sweep_test : (sweep all_dead (2 * hour) db_phone).0 ≡ 1
unfolding sweep silent_devices is_silent rows_where exists_where sweep_all sweep_one raise_alert
sweep_test = refl
