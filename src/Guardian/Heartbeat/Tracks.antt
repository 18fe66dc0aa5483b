-- ===== src/Guardian/Heartbeat/Tracks.antt =====
-- The alerts that a heartbeat leaves open, against a description of them.
use brainxp_server.Deps.{Caller}
use brainxp_server.Guardian.{
  protection_lost, protection_regained, resolve, revoked_detail, same_kind, status_detail,
}
use brainxp_server.Guardian.Alerts.{alert_open, raise_alert_open, resolve_open, same_key}
use brainxp_server.Guardian.Heartbeat.{
  EventIn, PushJob, beat, beaten, event_limit, heartbeat, is_restored, is_revoked, kind_of,
  log_event, note_event, note_events, note_kind, note_status, open_alert, status_of,
}
use brainxp_server.Prelude.{
  ==_self, Bool, Bool-cases, List, Option, [], ap, arith, false, if◌then◌else◌, inl, inr, none,
  or_else, refl, some, take, true, ℕ, ◌==◌, ◌∙◌, ◌∷◌, ◌≡◌, ◌≢◌,
}
use brainxp_server.Prelude.Exec.{ok}
use brainxp_server.Prelude.Rows.{first_where, update_where}
use brainxp_server.Tables.{Db}
use brainxp_server.Tables.Activity.{AlertKind, device_silent, protection_disabled}
use brainxp_server.Tables.People.{GuardianStatus}

-- Whether an alert of a kind is open after an event, by whether it was before.
abbrev pub after_kind : AlertKind → EventIn → Option AlertKind → Bool → Bool
after_kind k e none was = was
after_kind k e (some kind) was =
    if is_revoked e
    then (if same_kind kind k then true else was)
    else if is_restored e
    then (if same_kind kind k then false else was)
    else was

abbrev pub after_event : AlertKind → EventIn → Bool → Bool
after_event k e was = after_kind k e (kind_of e) was

-- The last event that tells of the kind decides.
unfoldable pub after_events : AlertKind → List EventIn → Bool → Bool
after_events k [] was = was
after_events k (e ∷ es) was = after_events k es (after_event k e was)

-- The status of the device decides over the protection, and a heartbeat ends a silence.
abbrev pub after_status : AlertKind → Option GuardianStatus → GuardianStatus → Bool → Bool
after_status k before now was =
    if same_kind device_silent k
    then false
    else if same_kind protection_disabled k
    then (if protection_lost before now
        then true
        else if protection_regained before now
        then false
        else was)
    else was

module _ (device subject at s : ℕ) (k : AlertKind) where
  abbrev mine : Bool → Bool → Bool
  mine own other = if subject == s then own else other

  -- The key of an alert of the profile, split.
  raised_mine :
      (kind : AlertKind) (was : Bool)
      → (if same_key subject kind s k then true else was)
        ≡ mine (if same_kind kind k then true else was) was
  raised_mine kind was = ground arith

  resolved_mine :
      (kind : AlertKind) (was : Bool)
      → (if same_key subject kind s k then false else was)
        ≡ mine (if same_kind kind k then false else was) was
  resolved_mine kind was = ground arith

  stays : (was : Bool) → was ≡ mine was was
  stays was = ground arith

  note_kind_open :
      (e : EventIn) (kind : Option AlertKind) (db : Db)
      → alert_open s k (note_kind device subject at e kind db).1
        ≡ mine (after_kind k e kind (alert_open s k db)) (alert_open s k db)
  unfolding note_kind open_alert
  note_kind_open e none db = stays (alert_open s k db)
  note_kind_open e (some kind) db = elim (Bool-cases (is_revoked e)) [
    | inl r ↦ rw r (
        raise_alert_open subject kind s k (some (revoked_detail (or_else e.permission "")))
          (some device) at db
        ∙ raised_mine kind (alert_open s k db))
    | inr r ↦ elim (Bool-cases (is_restored e)) [
      | inl q ↦
          rw (r, q) (resolve_open subject kind s k at db ∙ resolved_mine kind (alert_open s k db))
      | inr q ↦ rw (r, q) (stays (alert_open s k db))
    ]
  ]

  note_events_open :
      (es : List EventIn) (db : Db)
      → alert_open s k (note_events device subject at es db).1
        ≡ mine (after_events k es (alert_open s k db)) (alert_open s k db)
  unfolding note_events after_events
  note_events_open [] db = stays (alert_open s k db)
  note_events_open (e ∷ es) db =
      let db₀ = log_event device subject at e db in
      let db₁ = (note_event device subject at e db₀).1 in
      let first = note_kind_open e (kind_of e) db₀ in
      let rest = note_events_open es db₁ in
      elim (Bool-cases (subject == s)) [
        | inl h ↦ rw h (rw (h, rw h at first) at rest)
        | inr h ↦ rw h (rw (h, rw h at first) at rest)
      ]

  note_status_open :
      (was : Option GuardianStatus) (status : GuardianStatus) (db : Db)
      → alert_open s k
          (note_status device subject was status at (resolve subject device_silent at db)).1
        ≡ mine (after_status k was status (alert_open s k db)) (alert_open s k db)
  unfolding note_status open_alert
  note_status_open was status db =
      let db₂ = resolve subject device_silent at db in
      let quiet = resolve_open subject device_silent s k at db in
      let d = status_detail status in
      elim (Bool-cases (protection_lost was status)) [
        | inl r ↦ rw r (
            raise_alert_open subject protection_disabled s k d (some device) at db₂
            ∙ rw quiet (ground arith))
        | inr r ↦ elim (Bool-cases (protection_regained was status)) [
          | inl q ↦
              rw (r, q)
                (resolve_open subject protection_disabled s k at db₂ ∙ rw quiet (ground arith))
          | inr q ↦ rw (r, q) (quiet ∙ ground arith)
        ]
      ]

-- A heartbeat of a paired device is always answered. Afterwards its silence is over; the alert that the
-- protection is off is open if the status got worse, closed if it got well, and else as it was; an alert
-- about a permission is open or closed as the last of the first 20 events about it says, and else as it
-- was; and no other profile's alerts are touched.
pub heartbeat_lem :
    (me : Caller) (device subject at : ℕ) (status : GuardianStatus) (events : List EventIn)
    (db : Db)
    → me.device_id ≡ some device
    → me.subject_id ≡ some subject
    → let was = status_of (first_where (λ d. d.id == device) db.devices) in
      (jobs : List PushJob) × (db' : Db) × (heartbeat me status events at db ≡ ok (jobs, db'))
      × ((k : AlertKind)
          → alert_open subject k db'
            ≡ after_events k
                (take event_limit events)
                (after_status k was status (alert_open subject k db)))
      × ((s : ℕ) (k : AlertKind) → subject ≢ s → alert_open s k db' ≡ alert_open s k db)
unfolding heartbeat beat
heartbeat_lem me device subject at status events db paired profile =
    let was = status_of (first_where (λ d. d.id == device) db.devices) in
    let db₁ : Db = record db {
      devices = update_where (λ d. d.id == device) (beaten status at) db.devices;
    } in
    let db₃ = (note_status device subject was status at (resolve subject device_silent at db₁)).1 in
    let taken = take event_limit events in
    (
      (beat device subject status events at db).0,
      (note_events device subject at taken db₃).1,
      rw (paired, profile) refl,
      λ k.
          let own = ==_self subject in
          let first = note_status_open device subject at subject k was status db₁ in
          let rest = note_events_open device subject at subject k taken db₃ in
          rw own at rest ∙ ap (after_events k taken) (rw own at first),
      λ s k other.
          let apart : (subject == s) ≡ false = ground arith in
          let first = note_status_open device subject at s k was status db₁ in
          let rest = note_events_open device subject at s k taken db₃ in
          rw apart at rest ∙ rw apart at first,
    )
