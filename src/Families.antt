-- ===== src/Families.antt =====
-- app/routers/families.py: a family's profiles and phones. Identifiers and texts that the server draws,
-- the hash and the verdicts of the rate limits are arguments. `heartbeat` is in Guardian.Heartbeat.
pub mod Household
pub mod Codes
pub mod Issue
mod Tests
use Prim.Native.String.{◌++◌ as str_append}
use brainxp_server.Auth.{Fresh, TokenOut, issue_pair}
use brainxp_server.Deps.{Caller, authorize_subject, is_parent}
use brainxp_server.Devices.{
  announce_replacement, burned, count_attempt, displace, has_code, release,
}
use brainxp_server.Ledger.Handlers.{audit}
use brainxp_server.Prelude.{
  Bool, Option, String, [], equals_id, false, if◌then◌else◌, is_none, is_some, leb, none, not, some,
  true, ℕ, ◌&&◌, ◌++◌, ◌==◌, ◌∷◌,
}
use brainxp_server.Prelude.Exec.{
  AppError, Exec, Result, conflict, err, forbidden, modify, not_found, ok, pure, raise, raise_if,
  rate_limited, ◌>>=◌, ◌>>◌,
}
use brainxp_server.Prelude.Rows.{delete_where, first_where, update_where}
use brainxp_server.Profiles.{open_profile}
use brainxp_server.Tables.{Db}
use brainxp_server.Tables.Activity.{AuditEntry, AuditTarget, no_payload, on_id, on_text}
use brainxp_server.Tables.People.{
  Device, GuardianStatus, PairingCode, Role, Subject, SubjectKind, parent,
}

-- `_my_family`
unfoldable pub my_family : Caller → Exec Db ℕ
my_family me db =
    elim (first_where
      (λ m. equals_id me.user_id m.user_id && elim m.role [ parent ↦ true | _ ↦ false ])
      db.family_members) [ none ↦ err forbidden | some m ↦ ok (m.family_id, db) ]

abbrev pub profile_audit : Caller → String → AuditTarget → AuditEntry
profile_audit me action target = record {
  actor_user_id = me.user_id;
  action = action;
  target = target;
  payload = no_payload;
}

abbrev pub kind_text : SubjectKind → String
kind_text SubjectKind.child = "child"
kind_text SubjectKind.personal = "personal"

-- The profile as the audit log names it.
abbrev pub named : Subject → String
named s = str_append (str_append (str_append s.display_name " (") (kind_text s.kind)) ")"

abbrev pub child_profile : ℕ → ℕ → String → String → Subject
child_profile id house name level = record {
  id = id;
  family_id = some house;
  user_id = none;
  display_name = name;
  academic_level = level;
  kind = SubjectKind.child;
  deleted_at = none;
}

-- POST /subjects
unfoldable pub create_child : Caller → String → String → String → ℕ → ℕ → Exec Db Subject
unfolding my_family open_profile
create_child me name level language id at = do
  raise_if (not (is_parent me)) forbidden
  house ← my_family me
  open_profile (child_profile id house name level) language me.user_id at
  audit (profile_audit me "create_child" (on_id id))
  pure (child_profile id house name level)

abbrev pub removed : ℕ → Subject → Subject
removed at s = record s { deleted_at = some at }

abbrev pub open_code_of : ℕ → PairingCode → Bool
open_code_of subject c = c.subject_id == subject && is_none c.consumed_at

-- What `remove_subject` does once it is allowed. The audit entry names the profile.
unfoldable pub remove_profile : ℕ → ℕ → Db → Db
unfolding release
remove_profile subject at db =
    let db₁ = record db {
      subjects = update_where (λ s. s.id == subject) (removed at) db.subjects;
    } in
    let db₂ = (release subject at db₁).1 in
    record db₂ { pairing_codes = delete_where (open_code_of subject) db₂.pairing_codes }

-- DELETE /subjects/{subject_id}
unfoldable pub remove_subject : Caller → ℕ → ℕ → Exec Db Unit
unfolding remove_profile
remove_subject me subject at = do
  raise_if (not (is_parent me)) forbidden
  s ← authorize_subject me subject
  modify (remove_profile subject at)
  audit (profile_audit me "remove_subject" (on_text (named s)))

-- DELETE /subjects/{subject_id}/device
unfoldable pub release_device : Caller → ℕ → ℕ → Exec Db Unit
unfolding release
release_device me subject at = do
  raise_if (not (is_parent me)) forbidden
  s ← authorize_subject me subject
  n ← (λ db. ok (release subject at db))
  raise_if (n == 0) not_found
  audit (profile_audit me "release_device" (on_text (named s)))

pub record PairIn : Type 0 where
  pub code : String
  pub install_binding : String
  pub platform : String
  pub model_name : Option String

-- What the server draws for a pairing: the phone's identifier and its secret.
pub record Drawn : Type 0 where
  pub device : ℕ
  pub secret : String

abbrev pub consumed_code : ℕ → PairingCode → PairingCode
consumed_code at c = record c { consumed_at = some at }

abbrev pub attempts_of : String → Db → ℕ
attempts_of code db = elim (first_where (has_code code) db.pairing_codes) [
  | none ↦ 0
  | some c ↦ c.attempt_count
]

-- The refusals of `pair_device` that come after the attempt was counted.
unfoldable pub code_refusal : PairingCode → ℕ → ℕ → Option AppError
unfolding burned
code_refusal row attempts at =
    if burned attempts
    then some (conflict "code_burned")
    else if is_some row.consumed_at
    then some (conflict "code_used")
    else if leb row.expires_at at
    then some (conflict "code_expired")
    else none

module _ (sha256 : String → String) (refresh_ttl : ℕ) where
  abbrev pub paired_device : PairingCode → PairIn → Drawn → ℕ → Device
  paired_device row body drawn at = record {
    id = drawn.device;
    subject_id = row.subject_id;
    device_secret_hash = sha256 drawn.secret;
    install_binding_hash = sha256 body.install_binding;
    platform = body.platform;
    model_name = body.model_name;
    guardian_status = GuardianStatus.unknown;
    last_heartbeat_at = some at;
    unbound_at = none;
  }

  abbrev pub phone_claims : PairingCode → Drawn → Caller
  phone_claims row drawn = record {
    user_id = none;
    subject_id = some row.subject_id;
    role = Role.child;
    device_id = some drawn.device;
  }

  -- The phones before and after: those in the way make room, and the new one is announced to them.
  unfoldable pub bind_device : PairingCode → PairIn → Drawn → ℕ → Db → Db
  unfolding displace announce_replacement
  bind_device row body drawn at db =
      let (displaced, db₁) = displace row.subject_id (sha256 body.install_binding) at db in
      let db₂ = record db₁ { devices = db₁.devices ++ paired_device row body drawn at ∷ [] } in
      announce_replacement displaced drawn.device at db₂

  abbrev pub paired_audit : PairingCode → Drawn → AuditEntry
  paired_audit row drawn = record {
    actor_user_id = some row.issued_by;
    action = "device_paired";
    target = on_id drawn.device;
    payload = no_payload;
  }

  -- `pair_device` after the attempt was counted.
  unfoldable pub pair_row : PairingCode → ℕ → PairIn → Drawn → Fresh → ℕ → Exec Db TokenOut
  unfolding code_refusal bind_device issue_pair
  pair_row row attempts body drawn new at = elim (code_refusal row attempts at) [
    | some e ↦ raise e
    | none ↦ do
      modify (bind_device row body drawn at)
      modify (λ db. record db {
        pairing_codes = update_where (has_code row.code) (consumed_code at) db.pairing_codes;
      })
      issue_pair sha256 refresh_ttl (phone_claims row drawn) none new at
      audit (paired_audit row drawn)
      pure (record { claims = phone_claims row drawn; refresh_token = new.raw; family_id = none })
  ]

  abbrev pub replied : {A : Type 0} → Db → Result (A × Db) → Result A × Db
  replied db (ok (a, db')) = (ok a, db')
  replied db (err e) = (err e, db)

  -- POST /devices/pair: the reply and the database afterwards, where the counted attempt stays.
  unfoldable pub pair_device : Bool → Bool → PairIn → Drawn → Fresh → ℕ → Db → Result TokenOut × Db
  unfolding count_attempt pair_row
  pair_device within_ip within_all body drawn new at db =
      if not (within_ip && within_all)
      then (err rate_limited, db)
      else elim (first_where (has_code body.code) db.pairing_codes) [
        | none ↦ (err not_found, db)
        | some row ↦
            let db₁ = count_attempt row.code db in
            replied db₁ (pair_row row (attempts_of row.code db₁) body drawn new at db₁)
      ]
