-- ===== src/Devices.antt =====
-- app/services/devices.py and app/services/pairing.py: which phone is a profile's, and the codes that
-- pair one.
pub mod Bound
use brainxp_server.Auth.{revoked}
use brainxp_server.Ledger.Handlers.{bound_to}
use brainxp_server.Prelude.{
  Bool, List, String, [], is_none, length, ltb, map, some, str_eq, ℕ, ◌&&◌, ◌++◌, ◌+◌, ◌==◌, ◌||◌,
  ◌∷◌,
}
use brainxp_server.Prelude.Exec.{outcome}
use brainxp_server.Prelude.Rows.{delete_where, rows_where, update_where}
use brainxp_server.Push.{id_in, revoke_devices}
use brainxp_server.Tables.{Db}
use brainxp_server.Tables.Activity.{GuardianEvent, InstalledApp, replaced_by}
use brainxp_server.Tables.People.{Device, PairingCode}

abbrev pub is_bound : Device → Bool
is_bound d = is_none d.unbound_at

abbrev pub unbound : ℕ → Device → Device
unbound at d = record d { unbound_at = some at }

-- A bound phone of the profile, or of the installation.
abbrev pub in_the_way : ℕ → String → Device → Bool
in_the_way subject binding d =
    is_bound d && (d.subject_id == subject || str_eq d.install_binding_hash binding)

unfoldable pub conflicting : ℕ → String → Db → List Device
conflicting subject binding db = rows_where (in_the_way subject binding) db.devices

abbrev pub device_ids : List Device → List ℕ
device_ids rows = map (λ d. d.id) rows

-- `A.forget` for the profile of every row; a repeated profile has nothing left to forget.
unfoldable pub forget_apps : List Device → List InstalledApp → List InstalledApp
forget_apps [] apps = apps
forget_apps (d ∷ ds) apps = forget_apps ds (delete_where (λ a. a.subject_id == d.subject_id) apps)

-- `_unbind`
unfoldable pub unbind : List Device → ℕ → Db → Db
unfolding forget_apps revoke_devices id_in
unbind rows at db =
    let ids = device_ids rows in
    let db₁ = record db {
      devices = update_where (λ d. id_in (some d.id) ids) (unbound at) db.devices;
      refresh_tokens =
          update_where (λ t. id_in t.device_id ids && is_none t.revoked_at) (revoked at)
            db.refresh_tokens;
    } in
    let db₂ = outcome db₁ (revoke_devices ids at db₁) in
    record db₂ { installed_apps = forget_apps rows db₂.installed_apps }

abbrev pub unbind_any : List Device → ℕ → Db → Db
unbind_any [] at db = db
unbind_any (d ∷ ds) at db = unbind (d ∷ ds) at db

unfoldable pub displace : ℕ → String → ℕ → Db → List Device × Db
unfolding conflicting unbind
displace subject binding at db =
    let rows = conflicting subject binding db in (rows, unbind_any rows at db)

abbrev pub replaced_event : ℕ → ℕ → Device → GuardianEvent
replaced_event device at d = record {
  subject_id = some d.subject_id;
  device_id = some d.id;
  event_type = "device_replaced";
  payload = replaced_by device;
  occurred_at = at;
}

unfoldable pub announce_replacement : List Device → ℕ → ℕ → Db → Db
announce_replacement displaced device at db = record db {
  guardian_events = db.guardian_events ++ map (replaced_event device at) displaced;
}

-- How many phones were released.
unfoldable pub release : ℕ → ℕ → Db → ℕ × Db
unfolding unbind
release subject at db =
    let rows = rows_where (bound_to subject) db.devices in (length rows, unbind_any rows at db)

-- MAX_ATTEMPTS
abbrev pub max_attempts : ℕ
max_attempts = 5

unfoldable pub burned : ℕ → Bool
burned attempts = ltb max_attempts attempts

abbrev pub has_code : String → PairingCode → Bool
has_code code c = str_eq c.code code

abbrev pub tried : PairingCode → PairingCode
tried c = record c { attempt_count = c.attempt_count + 1 }

-- `count_attempt`, which commits on a connection of its own.
unfoldable pub count_attempt : String → Db → Db
count_attempt code db = record db {
  pairing_codes = update_where (has_code code) tried db.pairing_codes;
}
