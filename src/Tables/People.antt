-- ===== src/Tables/People.antt =====
-- The rows of app/tables.py about accounts, profiles and devices. Identifiers are only compared, so
-- they are numbers; times are microseconds. A column that no modelled code reads or writes is left
-- out.
use brainxp_server.Prelude.{Option, String, ℕ}

pub data Role : Type 0 where
  parent child personal : Role

pub data SubjectKind : Type 0 where
  child personal : SubjectKind

pub record User : Type 0 where
  pub id : ℕ
  pub email : Option String
  pub password_hash : Option String
  pub role : Role
  pub display_name : String
  pub deleted_at : Option ℕ

pub record Family : Type 0 where
  pub id : ℕ
  pub owner_user_id : ℕ

pub record FamilyMember : Type 0 where
  pub family_id : ℕ
  pub user_id : ℕ
  pub role : Role

pub record Subject : Type 0 where
  pub id : ℕ
  pub family_id : Option ℕ
  pub user_id : Option ℕ
  pub display_name : String
  pub academic_level : String
  pub kind : SubjectKind
  pub deleted_at : Option ℕ

pub data GuardianStatus : Type 0 where
  fine degraded disabled unknown : GuardianStatus

pub record Device : Type 0 where
  pub id : ℕ
  pub subject_id : ℕ
  pub device_secret_hash : String
  pub install_binding_hash : String
  pub platform : String
  pub model_name : Option String
  pub guardian_status : GuardianStatus
  pub last_heartbeat_at : Option ℕ
  pub unbound_at : Option ℕ

pub record RefreshToken : Type 0 where
  pub id : ℕ
  pub user_id : Option ℕ
  pub device_id : Option ℕ
  pub token_hash : String
  pub family_chain : ℕ
  pub used_at : Option ℕ
  pub revoked_at : Option ℕ
  pub expires_at : ℕ

pub record PairingCode : Type 0 where
  pub code : String
  pub family_id : ℕ
  pub subject_id : ℕ
  pub issued_by : ℕ
  pub expires_at : ℕ
  pub consumed_at : Option ℕ
  pub attempt_count : ℕ

pub record PushToken : Type 0 where
  pub token : String
  pub user_id : Option ℕ
  pub device_id : Option ℕ
  pub platform : String
  pub last_seen_at : ℕ
  pub revoked_at : Option ℕ
