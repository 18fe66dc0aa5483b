-- ===== src/Guardian.antt =====
-- app/services/guardian.py: the alerts that guardians see, and the sweep for silent devices.
pub mod Alerts
pub mod Feed
pub mod Heartbeat
mod Tests
use Prim.Native.String.{◌++◌ as str_append}
use brainxp_server.Prelude.{
  Bool, List, Option, String, [], false, get_elem?, if◌then◌else◌, is_none, ltb, max, none, not,
  or_else, some, str_eq, suc, true, zero, ℕ, ◌%◌, ◌&&◌, ◌*◌, ◌++◌, ◌+◌, ◌-◌, ◌/◌, ◌==◌, ◌∷◌,
}
use brainxp_server.Prelude.Exec.{outcome}
use brainxp_server.Prelude.Rows.{exists_where, first_where, rows_where, update_where}
use brainxp_server.Push.{prune, recipients}
use brainxp_server.Rules.Calendar.{second}
use brainxp_server.Tables.{Db}
use brainxp_server.Tables.Activity.{
  AlertKind, GuardianAlert, accessibility_off, device_silent, overlay_off, protection_disabled,
  usage_access_off,
}
use brainxp_server.Tables.People.{Device, GuardianStatus, Subject, degraded, disabled, fine}

-- HEARTBEAT_SILENCE: a quarter of an hour.
abbrev pub heartbeat_silence : ℕ
heartbeat_silence = 15 * 60 * second

abbrev pub kind_number : AlertKind → ℕ
kind_number accessibility_off = 0
kind_number usage_access_off = 1
kind_number overlay_off = 2
kind_number protection_disabled = 3
kind_number device_silent = 4

abbrev pub same_kind : AlertKind → AlertKind → Bool
same_kind a b = kind_number a == kind_number b

-- PERMISSION_KINDS
abbrev pub permission_kind : String → Option AlertKind
permission_kind p =
    if str_eq p "accessibility"
    then some accessibility_off
    else if str_eq p "usage_access"
    then some usage_access_off
    else if str_eq p "overlay"
    then some overlay_off
    else none

abbrev pub is_failing : GuardianStatus → Bool
is_failing degraded = true
is_failing disabled = true
is_failing _ = false

abbrev pub was_failing : Option GuardianStatus → Bool
was_failing none = false
was_failing (some s) = is_failing s

unfoldable pub protection_lost : Option GuardianStatus → GuardianStatus → Bool
protection_lost previous current = is_failing current && not (was_failing previous)

unfoldable pub protection_regained : Option GuardianStatus → GuardianStatus → Bool
protection_regained previous current = elim current [ fine ↦ was_failing previous | _ ↦ false ]

-- STATUS_DETAILS
abbrev pub status_detail : GuardianStatus → Option String
status_detail degraded = some "Sebagian izin BrainXP dicabut, jadi penjagaannya tidak utuh."
status_detail disabled = some "BrainXP dimatikan di ponselnya."
status_detail _ = none

-- PERMISSION_LABELS, or the permission itself
abbrev pub permission_label : String → String
permission_label p =
    if str_eq p "accessibility"
    then "aksesibilitas"
    else if str_eq p "usage_access"
    then "akses penggunaan"
    else if str_eq p "overlay"
    then "tampil di atas aplikasi lain"
    else p

unfoldable pub revoked_detail : String → String
revoked_detail p = str_append (str_append "Izin " (permission_label p)) " dicabut dari BrainXP."

-- `still_open`
abbrev pub still_open : GuardianAlert → Bool
still_open a = is_none a.acknowledged_at && is_none a.resolved_at

-- The key of the unique index over open alerts.
abbrev pub open_of : ℕ → AlertKind → GuardianAlert → Bool
open_of subject kind a = a.subject_id == subject && same_kind a.kind kind && still_open a

abbrev pub new_alert : ℕ → ℕ → AlertKind → Option String → Option ℕ → ℕ → GuardianAlert
new_alert id subject kind detail device at = record {
  id = id;
  subject_id = subject;
  device_id = device;
  kind = kind;
  detail = detail;
  created_at = at;
  acknowledged_at = none;
  resolved_at = none;
}

-- The insert that does nothing on a conflict; the sequence moves on all the same.
unfoldable pub raise_alert : ℕ → AlertKind → Option String → Option ℕ → ℕ → Db → Option ℕ × Db
raise_alert subject kind detail device at db =
    let db' = record db { alert_sequence = db.alert_sequence + 1 } in
    if exists_where (open_of subject kind) db.guardian_alerts then (none, db') else (
      some db.alert_sequence,
      record db' {
        guardian_alerts =
            db.guardian_alerts ++ new_alert db.alert_sequence subject kind detail device at ∷ [];
      },
    )

abbrev pub resolved : ℕ → GuardianAlert → GuardianAlert
resolved at a = record a { resolved_at = some at }

-- `resolve` for one kind, as every caller asks.
unfoldable pub resolve : ℕ → AlertKind → ℕ → Db → Db
resolve subject kind at db = record db {
  guardian_alerts = update_where (open_of subject kind) (resolved at) db.guardian_alerts;
}

-- `already_told`
abbrev pub told_since : ℕ → ℕ → GuardianAlert → Bool
told_since subject seen a =
    a.subject_id == subject && same_kind a.kind device_silent && ltb seen a.created_at

abbrev pub profile_alive : ℕ → Subject → Bool
profile_alive subject s = s.id == subject && is_none s.deleted_at

-- A row of `silent_devices`; the cutoff is `heartbeat_silence` ago.
unfoldable pub is_silent : ℕ → Db → Device → Bool
is_silent at db d = is_none d.unbound_at && elim d.last_heartbeat_at [
  | none ↦ false
  | some seen ↦
      exists_where (profile_alive d.subject_id) db.subjects
      && ltb (seen + heartbeat_silence) at
      && not (exists_where (told_since d.subject_id seen) db.guardian_alerts)
]

unfoldable pub silent_devices : ℕ → Db → List Device
unfolding is_silent
silent_devices at db = rows_where (is_silent at db) db.devices

abbrev pub digit : ℕ → String
digit n = or_else (get_elem? ("0" ∷ "1" ∷ "2" ∷ "3" ∷ "4" ∷ "5" ∷ "6" ∷ "7" ∷ "8" ∷ "9" ∷ []) n) ""

-- `str(n)`, on fuel for the digits; a number has no more digits than it counts.
unfoldable pub decimal : ℕ → ℕ → String
decimal zero n = digit n
decimal (suc fuel) n =
    let front = decimal fuel (n / 10) in
    if ltb n 10 then digit n else str_append front (digit (n % 10))

unfoldable pub silence_detail : ℕ → ℕ → String
unfolding decimal
silence_detail seen at =
    let minutes = max 1 ((at - seen) / (60 * second)) in
    str_append (str_append "Sudah " (decimal minutes minutes))
      " menit tidak ada kabar dari ponselnya."

module _ (send : List String → Option (List String)) where
  -- `deliver` once there is somebody to notify; the provider's sender returns the dead tokens, or raises.
  -- The texts that it is given are left out.
  unfoldable pub deliver_to : ℕ → List String → Db → Db
  unfolding prune
  deliver_to at [] db = db
  deliver_to at (t ∷ tokens) db = elim (send (t ∷ tokens)) [
    | none ↦ db
    | some dead ↦ outcome db (prune dead at db)
  ]

  unfoldable pub deliver : ℕ → ℕ → Db → Db
  unfolding recipients deliver_to
  deliver subject at db =
      if is_none (first_where (λ s. s.id == subject) db.subjects)
      then db
      else deliver_to at (recipients subject db) db

  -- One turn of the loop of `sweep`.
  unfoldable pub sweep_one : ℕ → Device → Db → ℕ × Db
  unfolding raise_alert deliver silence_detail
  sweep_one at d db =
      let detail = silence_detail (or_else d.last_heartbeat_at 0) at in
      let (opened, db') = raise_alert d.subject_id device_silent (some detail) (some d.id) at db in
      if is_none opened then (0, db') else (1, deliver d.subject_id at db')

  unfoldable pub sweep_all : ℕ → List Device → Db → ℕ × Db
  unfolding sweep_one
  sweep_all at [] db = (0, db)
  sweep_all at (d ∷ ds) db =
      let (n, db') = sweep_one at d db in let (m, db'') = sweep_all at ds db' in (n + m, db'')

  -- How many alerts were raised.
  unfoldable pub sweep : ℕ → Db → ℕ × Db
  unfolding silent_devices sweep_all
  sweep at db = sweep_all at (silent_devices at db) db
