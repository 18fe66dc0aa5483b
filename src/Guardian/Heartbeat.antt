-- ===== src/Guardian/Heartbeat.antt =====
-- `heartbeat` of app/routers/families.py. The schema keeps an event's type within 60 characters, so the
-- cut to 60 takes nothing off; the event's further fields are not read.
pub mod Tracks
pub mod Calm
use brainxp_server.Deps.{Caller}
use brainxp_server.Guardian.{
  permission_kind, protection_lost, protection_regained, raise_alert, resolve, revoked_detail,
  status_detail,
}
use brainxp_server.Prelude.{
  Bool, List, Option, String, [], if◌then◌else◌, none, or_else, some, str_eq, take, ℕ, ◌++◌, ◌==◌,
  ◌∷◌,
}
use brainxp_server.Prelude.Exec.{Exec, err, forbidden, internal, ok}
use brainxp_server.Prelude.Rows.{first_where, update_where}
use brainxp_server.Tables.{Db}
use brainxp_server.Tables.Activity.{AlertKind, device_silent, protection_disabled, reported}
use brainxp_server.Tables.People.{Device, GuardianStatus}

pub record EventIn : Type 0 where
  pub event_type : String
  pub permission : Option String

-- What the background task `guardian_push` is queued with.
pub record PushJob : Type 0 where
  pub alert_id : ℕ
  pub kind : AlertKind
  pub detail : Option String

-- EVENT_LIMIT
abbrev pub event_limit : ℕ
event_limit = 20

-- REVOKED and RESTORED
abbrev pub is_revoked : EventIn → Bool
is_revoked e = str_eq e.event_type "permission_revoked"

abbrev pub is_restored : EventIn → Bool
is_restored e = str_eq e.event_type "permission_restored"

abbrev pub kind_of : EventIn → Option AlertKind
kind_of e = elim e.permission [ none ↦ none | some p ↦ permission_kind p ]

abbrev pub job_of : Option ℕ → AlertKind → Option String → List PushJob
job_of none kind detail = []
job_of (some id) kind detail = record { alert_id = id; kind = kind; detail = detail } ∷ []

-- `raise_alert`, and the job when it opened one.
unfoldable pub open_alert : ℕ → AlertKind → Option String → Option ℕ → ℕ → Db → List PushJob × Db
unfolding raise_alert
open_alert subject kind detail device at db =
    let (opened, db') = raise_alert subject kind detail device at db in
    (job_of opened kind detail, db')

-- The change of protection that the status tells of.
unfoldable pub note_status :
    ℕ → ℕ → Option GuardianStatus → GuardianStatus → ℕ → Db → List PushJob × Db
unfolding open_alert protection_lost protection_regained
note_status device subject was status at db =
    if protection_lost was status
    then open_alert subject protection_disabled (status_detail status) (some device) at db
    else if protection_regained was status
    then ([], resolve subject protection_disabled at db)
    else ([], db)

-- What an event does to the alerts, by the kind of its permission.
unfoldable pub note_kind : ℕ → ℕ → ℕ → EventIn → Option AlertKind → Db → List PushJob × Db
unfolding open_alert revoked_detail
note_kind device subject at e none db = ([], db)
note_kind device subject at e (some kind) db =
    if is_revoked e
    then open_alert subject kind (some (revoked_detail (or_else e.permission ""))) (some device) at
        db
    else if is_restored e
    then ([], resolve subject kind at db)
    else ([], db)

abbrev pub note_event : ℕ → ℕ → ℕ → EventIn → Db → List PushJob × Db
note_event device subject at e db = note_kind device subject at e (kind_of e) db

abbrev pub log_event : ℕ → ℕ → ℕ → EventIn → Db → Db
log_event device subject at e db = record db {
  guardian_events =
      db.guardian_events
      ++ record {
        subject_id = some subject;
        device_id = some device;
        event_type = e.event_type;
        payload = reported e.event_type e.permission;
        occurred_at = at;
      }
        ∷ [];
}

-- The loop over the events.
unfoldable pub note_events : ℕ → ℕ → ℕ → List EventIn → Db → List PushJob × Db
unfolding note_kind
note_events device subject at [] db = ([], db)
note_events device subject at (e ∷ es) db =
    let (jobs, db₁) = note_event device subject at e (log_event device subject at e db) in
    let (more, db₂) = note_events device subject at es db₁ in (jobs ++ more, db₂)

abbrev pub beaten : GuardianStatus → ℕ → Device → Device
beaten status at d = record d { guardian_status = status; last_heartbeat_at = some at }

abbrev pub status_of : Option Device → Option GuardianStatus
status_of none = none
status_of (some d) = some d.guardian_status

-- What a heartbeat of a paired device does, and the jobs that are queued behind the reply.
unfoldable pub beat : ℕ → ℕ → GuardianStatus → List EventIn → ℕ → Db → List PushJob × Db
unfolding note_status note_events
beat device subject status events at db =
    let was = status_of (first_where (λ d. d.id == device) db.devices) in
    let db₁ = record db {
      devices = update_where (λ d. d.id == device) (beaten status at) db.devices;
    } in
    let db₂ = resolve subject device_silent at db₁ in
    let (jobs, db₃) = note_status device subject was status at db₂ in
    let (more, db₄) = note_events device subject at (take event_limit events) db₃ in
    (jobs ++ more, db₄)

-- POST /devices/heartbeat; the token of a device always carries its profile.
unfoldable pub heartbeat : Caller → GuardianStatus → List EventIn → ℕ → Exec Db (List PushJob)
unfolding beat
heartbeat me status events at db = elim me.device_id [
  | none ↦ err forbidden
  | some device ↦ elim me.subject_id [
    | none ↦ err internal
    | some subject ↦ ok (beat device subject status events at db)
  ]
]
