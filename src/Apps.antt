-- ===== src/Apps.antt =====
-- app/services/apps.py and `sync_installed_apps` of app/routers/apps.py: the apps on a phone.
pub mod Packages
pub mod Present
mod Tests
use Prim.Native.Nat.{Ordering}
use Prim.Native.String.{compare as str_compare}
use brainxp_server.Deps.{Caller}
use brainxp_server.Prelude.{
  Bool, List, Option, String, [], false, if◌then◌else◌, is_none, is_some, length, map, none, not,
  some, str_eq, true, ℕ, ◌&&◌, ◌++◌, ◌==◌, ◌∷◌,
}
use brainxp_server.Prelude.Exec.{Exec, err, forbidden, ok, rate_limited}
use brainxp_server.Prelude.Rows.{exists_where, rows_where, update_where}
use brainxp_server.Tables.{Db}
use brainxp_server.Tables.Activity.{GuardianEvent, InstalledApp, apps_changed}

pub record AppIn : Type 0 where
  pub package_name : String
  pub label : String
  pub is_system : Bool
  pub version_name : Option String

-- Assignment to a key of a dictionary, which keeps the key's place.
unfoldable pub assign : AppIn → List AppIn → List AppIn
assign a [] = a ∷ []
assign a (b ∷ bs) =
    let rest = assign a bs in if str_eq b.package_name a.package_name then a ∷ bs else b ∷ rest

unfoldable pub assign_all : List AppIn → List AppIn → List AppIn
unfolding assign
assign_all [] latest = latest
assign_all (a ∷ apps) latest = assign_all apps (assign a latest)

unfoldable pub deduplicate : List AppIn → List AppIn
unfolding assign_all
deduplicate apps = assign_all apps []

-- A package with its label.
abbrev pub AppRef : Type 0
AppRef = String × String

-- `p in refs`, for the dictionary of the references
unfoldable pub has_package : String → List AppRef → Bool
has_package p [] = false
has_package p (r ∷ refs) = if str_eq r.0 p then true else has_package p refs

-- `sorted`, by insertion.
unfoldable pub insert_ref : AppRef → List AppRef → List AppRef
insert_ref r [] = r ∷ []
insert_ref r (s ∷ refs) =
    let rest = insert_ref r refs in
    elim (str_compare s.0 r.0) [ Ordering.lt ↦ s ∷ rest | _ ↦ r ∷ s ∷ refs ]

-- The references whose package the other dictionary lacks, sorted by it.
unfoldable pub difference : List AppRef → List AppRef → List AppRef
unfolding has_package insert_ref
difference [] others = []
difference (r ∷ refs) others =
    let rest = difference refs others in if has_package r.0 others then rest else insert_ref r rest

-- `compare`
abbrev pub compare_apps : List AppRef → List AppRef → List AppRef × List AppRef
compare_apps known incoming = (difference incoming known, difference known incoming)

abbrev pub row_ref : InstalledApp → AppRef
row_ref r = (r.package_name, r.label)

abbrev pub app_ref : AppIn → AppRef
app_ref a = (a.package_name, a.label)

abbrev pub of_subject : ℕ → InstalledApp → Bool
of_subject subject r = r.subject_id == subject

abbrev pub is_present : ℕ → InstalledApp → Bool
is_present subject r = r.subject_id == subject && is_none r.removed_at

abbrev pub known_apps : ℕ → List InstalledApp → List AppRef
known_apps subject rows = map row_ref (rows_where (is_present subject) rows)

abbrev pub has_key : ℕ → String → InstalledApp → Bool
has_key subject p r = r.subject_id == subject && str_eq r.package_name p

abbrev pub inserted : ℕ → Option ℕ → AppIn → ℕ → InstalledApp
inserted subject device a at = record {
  subject_id = subject;
  package_name = a.package_name;
  label = a.label;
  is_system = a.is_system;
  version_name = a.version_name;
  device_id = device;
  first_seen_at = at;
  last_seen_at = at;
  removed_at = none;
}

-- The conflict's SET: an app that comes back is first seen anew.
abbrev pub seen_again : Option ℕ → AppIn → ℕ → InstalledApp → InstalledApp
seen_again device a at r = record r {
  label = a.label;
  is_system = a.is_system;
  version_name = a.version_name;
  device_id = device;
  first_seen_at = if is_some r.removed_at then at else r.first_seen_at;
  last_seen_at = at;
  removed_at = none;
}

unfoldable pub upsert_app : ℕ → Option ℕ → ℕ → AppIn → List InstalledApp → List InstalledApp
upsert_app subject device at a rows =
    if exists_where (has_key subject a.package_name) rows
    then update_where (has_key subject a.package_name) (seen_again device a at) rows
    else rows ++ inserted subject device a at ∷ []

-- `_upsert`
unfoldable pub upsert_apps : ℕ → Option ℕ → ℕ → List AppIn → List InstalledApp → List InstalledApp
unfolding upsert_app
upsert_apps subject device at [] rows = rows
upsert_apps subject device at (a ∷ apps) rows =
    upsert_apps subject device at apps (upsert_app subject device at a rows)

abbrev pub gone : ℕ → InstalledApp → InstalledApp
gone at r = record r { removed_at = some at }

pub record Diff : Type 0 where
  pub installed : List AppRef
  pub uninstalled : List AppRef
  pub present : ℕ
  pub baseline : Bool

abbrev pub is_empty_list : List AppRef → Bool
is_empty_list [] = true
is_empty_list (r ∷ refs) = false

-- The property `changed`
abbrev pub has_changed : Diff → Bool
has_changed d = not (is_empty_list d.installed && is_empty_list d.uninstalled)

abbrev pub has_no_rows : List InstalledApp → Bool
has_no_rows [] = true
has_no_rows (r ∷ rows) = false

-- The table after a sync. With nothing uninstalled the update has no row to change.
unfoldable pub sync_rows : ℕ → Option ℕ → List AppIn → ℕ → List InstalledApp → List InstalledApp
unfolding deduplicate difference upsert_apps
sync_rows subject device apps at rows =
    let latest = deduplicate apps in
    let uninstalled = difference (known_apps subject rows) (map app_ref latest) in
    update_where (λ r. r.subject_id == subject && has_package r.package_name uninstalled) (gone at)
      (upsert_apps subject device at latest rows)

unfoldable pub app_diff : ℕ → List AppIn → List InstalledApp → Diff
unfolding deduplicate difference
app_diff subject apps rows =
    let incoming = map app_ref (deduplicate apps) in
    let (added, lost) = compare_apps (known_apps subject rows) incoming in
    record {
      installed = added;
      uninstalled = lost;
      present = length incoming;
      baseline = has_no_rows (rows_where (of_subject subject) rows);
    }

abbrev pub changes_event : ℕ → Option ℕ → Diff → ℕ → GuardianEvent
changes_event subject device d at = record {
  subject_id = some subject;
  device_id = device;
  event_type = "apps_changed";
  payload = apps_changed d.installed d.uninstalled;
  occurred_at = at;
}

-- `sync`
unfoldable pub sync_apps : ℕ → Option ℕ → List AppIn → ℕ → Db → Diff × Db
unfolding sync_rows app_diff
sync_apps subject device apps at db =
    let d = app_diff subject apps db.installed_apps in
    let db₁ = record db { installed_apps = sync_rows subject device apps at db.installed_apps } in
    (
      d,
      if has_changed d && not d.baseline
          then record db₁ {
            guardian_events = db₁.guardian_events ++ changes_event subject device d at ∷ [];
          }
          else db₁,
    )

-- PUT /devices/apps; the verdict of the rate limit is an argument.
unfoldable pub sync_installed_apps : Caller → Bool → List AppIn → ℕ → Exec Db Diff
unfolding sync_apps
sync_installed_apps me within apps at db = elim me.device_id [
  | none ↦ err forbidden
  | some device ↦ elim me.subject_id [
    | none ↦ err forbidden
    | some subject ↦
        if not within then err rate_limited else ok (sync_apps subject (some device) apps at db)
  ]
]
