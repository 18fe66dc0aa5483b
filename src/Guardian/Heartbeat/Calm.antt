-- ===== src/Guardian/Heartbeat/Calm.antt =====
-- At most one open alert for every profile and kind, whatever devices, guardians and the sweep do.
use brainxp_server.Deps.{Caller}
use brainxp_server.Guardian.{
  deliver, deliver_to, open_of, protection_lost, protection_regained, raise_alert, silence_detail,
  silent_devices, sweep, sweep_all, sweep_one,
}
use brainxp_server.Guardian.Alerts.{IsCalm, raise_alert-IsCalm, resolve-IsCalm}
use brainxp_server.Guardian.Feed.{acknowledge_alert, acknowledge_alert-IsCalm}
use brainxp_server.Guardian.Heartbeat.{
  EventIn, beat, event_limit, heartbeat, is_restored, is_revoked, kind_of, log_event, note_event,
  note_events, note_kind, note_status, open_alert,
}
use brainxp_server.Prelude.{
  Bool-cases, List, Option, Option-cases, String, [], inl, inr, is_none, none, or_else, refl, some,
  take, ℕ, ◌==◌, ◌∷◌, ◌≡◌, ◌≤◌,
}
use brainxp_server.Prelude.Exec.{outcome}
use brainxp_server.Prelude.Rows.{count_where, first_where}
use brainxp_server.Prelude.Triple.{Triple, outcome-Post}
use brainxp_server.Push.{prune, recipients}
use brainxp_server.Tables.{Db}
use brainxp_server.Tables.Activity.{AlertKind, device_silent, protection_disabled}
use brainxp_server.Tables.People.{Device, GuardianStatus}

deliver_to_alerts :
    (send : List String → Option (List String)) (at : ℕ) (tokens : List String) (db : Db)
    → (deliver_to send at tokens db).guardian_alerts ≡ db.guardian_alerts
unfolding deliver_to prune
deliver_to_alerts send at [] db = refl
deliver_to_alerts send at (t ∷ tokens) db = elim (Option-cases (send (t ∷ tokens))) [
  | inl e ↦ rw (e, deliver_to) refl
  | inr (dead, e) ↦ rw (e, deliver_to) refl
]

deliver_alerts :
    (send : List String → Option (List String)) (subject at : ℕ) (db : Db)
    → (deliver send subject at db).guardian_alerts ≡ db.guardian_alerts
unfolding deliver
deliver_alerts send subject at db =
    elim (Bool-cases (is_none (first_where (λ s. s.id == subject) db.subjects))) [
      | inl e ↦ rw (e, deliver) refl
      | inr e ↦ rw (e, deliver) (deliver_to_alerts send at (recipients subject db) db)
    ]

sweep_all-IsCalm :
    (send : List String → Option (List String)) (at : ℕ) (ds : List Device) (db : Db)
    → IsCalm db
    → IsCalm (sweep_all send at ds db).1
unfolding sweep_all sweep_one
sweep_all-IsCalm send at [] db h = h
sweep_all-IsCalm send at (d ∷ ds) db h =
    let detail = some (silence_detail (or_else d.last_heartbeat_at 0) at) in
    let (opened, db') = raise_alert d.subject_id device_silent detail (some d.id) at db in
    let raised = raise_alert-IsCalm d.subject_id device_silent detail (some d.id) at db h in
    elim (Bool-cases (is_none opened)) [
      | inl e ↦ rw e (sweep_all-IsCalm send at ds db' raised)
      | inr e ↦ rw e (
          sweep_all-IsCalm send at ds (deliver send d.subject_id at db')
            (λ s k. rw (deliver_alerts send d.subject_id at db') (raised s k)))
    ]

note_kind-IsCalm :
    (device subject at : ℕ) (e : EventIn) (kind : Option AlertKind) (db : Db)
    → IsCalm db
    → IsCalm (note_kind device subject at e kind db).1
unfolding note_kind open_alert
note_kind-IsCalm device subject at e none db h = h
note_kind-IsCalm device subject at e (some kind) db h = elim (Bool-cases (is_revoked e)) [
  | inl r ↦ rw r (raise_alert-IsCalm subject kind _ (some device) at db h)
  | inr r ↦ elim (Bool-cases (is_restored e)) [
    | inl q ↦ rw (r, q) (resolve-IsCalm subject kind at db h)
    | inr q ↦ rw (r, q) h
  ]
]

note_events-IsCalm :
    (device subject at : ℕ) (es : List EventIn) (db : Db)
    → IsCalm db
    → IsCalm (note_events device subject at es db).1
unfolding note_events
note_events-IsCalm device subject at [] db h = h
note_events-IsCalm device subject at (e ∷ es) db h =
    note_events-IsCalm device subject at es
      (note_event device subject at e (log_event device subject at e db)).1
      (note_kind-IsCalm device subject at e (kind_of e) (log_event device subject at e db) h)

note_status-IsCalm :
    (device subject at : ℕ) (was : Option GuardianStatus) (status : GuardianStatus) (db : Db)
    → IsCalm db
    → IsCalm (note_status device subject was status at db).1
unfolding note_status open_alert
note_status-IsCalm device subject at was status db h =
    elim (Bool-cases (protection_lost was status)) [
      | inl r ↦ rw r (raise_alert-IsCalm subject protection_disabled _ (some device) at db h)
      | inr r ↦ elim (Bool-cases (protection_regained was status)) [
        | inl q ↦ rw (r, q) (resolve-IsCalm subject protection_disabled at db h)
        | inr q ↦ rw (r, q) h
      ]
    ]

beat-IsCalm :
    (device subject : ℕ) (status : GuardianStatus) (events : List EventIn) (at : ℕ) (db : Db)
    → IsCalm db
    → IsCalm (beat device subject status events at db).1
unfolding beat
beat-IsCalm device subject status events at db h =
    note_events-IsCalm device subject at (take event_limit events) _ (
      note_status-IsCalm device subject at _ status _ (resolve-IsCalm subject device_silent at _ h))

heartbeat-IsCalm :
    (me : Caller) (status : GuardianStatus) (events : List EventIn) (at : ℕ)
    → Triple IsCalm (heartbeat me status events at) (λ _. IsCalm)
unfolding heartbeat
heartbeat-IsCalm me status events at db h = elim (Option-cases me.device_id) [
  | inl e ↦ rw (e, heartbeat) tt
  | inr (device, e) ↦ elim (Option-cases me.subject_id) [
    | inl q ↦ rw (e, q, heartbeat) tt
    | inr (subject, q) ↦ rw (e, q, heartbeat) (beat-IsCalm device subject status events at db h)
  ]
]

module _ (send : List String → Option (List String)) where
  -- What happens to the alerts: a heartbeat, an acknowledgement, a round of the sweep.
  pub data Watched (db : Db) : Db → Type 0 where
    unwatched : Watched db db
    beaten_by :
        {db' : Db} (me : Caller) (status : GuardianStatus) (events : List EventIn) (at : ℕ)
        → Watched db db'
        → Watched db (outcome db' (heartbeat me status events at db'))
    seen_by :
        {db' : Db} (me : Caller) (alert at : ℕ)
        → Watched db db'
        → Watched db (outcome db' (acknowledge_alert me alert at db'))
    swept : {db' : Db} (at : ℕ) → Watched db db' → Watched db (sweep send at db').1

  -- Whatever heartbeats, acknowledgements and sweeps come, in any order, no profile ever has two open
  -- alerts of a kind.
  pub Watched-IsCalm :
      {db db' : Db}
      → IsCalm db
      → Watched db db'
      → (s : ℕ) (k : AlertKind) → count_where (open_of s k) db'.guardian_alerts ≤ 1
  unfolding sweep
  Watched-IsCalm h unwatched = h
  Watched-IsCalm h (beaten_by {db' = d} me status events at before) =
      let calm = Watched-IsCalm h before in
      outcome-Post d (heartbeat me status events at d) IsCalm calm
        (heartbeat-IsCalm me status events at d calm)
  Watched-IsCalm h (seen_by {db' = d} me alert at before) =
      let calm = Watched-IsCalm h before in
      outcome-Post d (acknowledge_alert me alert at d) IsCalm calm
        (acknowledge_alert-IsCalm me alert at d calm)
  Watched-IsCalm h (swept {db' = d} at before) =
      sweep_all-IsCalm send at (silent_devices at d) d (Watched-IsCalm h before)
