-- ===== src/Tables/Activity.antt =====
-- The rows of app/tables.py about what a profile does: its rules, its time ledger and its progress,
-- the apps on its phone, and what its guardians are told.
use brainxp_server.Prelude.{Bool, List, Option, String, ℕ}
use brainxp_server.Prelude.Int.{ℤ}

-- The optional fields of `PolicyIn` that a request sets, as `model_dump` without the nulls keeps
-- them, and as a pending request stores them. `last_locked` is the key "__last_locked__" that
-- `unlock_app` looks for. `essay_ratio` is the double of the body, as the number that its 64 bits are;
-- the column of a policy is NUMERIC(3, 2), in hundredths.
pub record Changes : Type 0 where
  pub questions_per_session : Option ℤ
  pub base_reward_seconds : Option ℤ
  pub essay_ratio : Option ℕ
  pub academic_level : Option String
  pub question_language : Option String
  pub daily_caps : Option (List ℤ)
  pub daily_grants : Option (List ℤ)
  pub idle_days_allowed : Option ℤ
  pub day_reset_hour : Option ℕ
  pub allowed_upload_methods : Option (List String)
  pub locked_apps : Option (List String)
  pub last_locked : Option String

pub record Policy : Type 0 where
  pub subject_id : ℕ
  pub questions_per_session : ℤ
  pub base_reward_seconds : ℤ
  pub essay_ratio : ℕ
  pub academic_level : String
  pub question_language : String
  pub daily_caps : List ℤ
  pub daily_grants : List ℤ
  pub idle_days_allowed : ℤ
  pub day_reset_hour : ℕ
  pub allowed_upload_methods : List String
  pub locked_apps : List String
  pub pending_weaken_at : Option ℕ
  pub pending_weaken_payload : Option Changes
  pub updated_by : Option ℕ
  pub updated_at : ℕ

pub data EntryType : Type 0 where
  earned consumed granted redeemed : EntryType

pub record LedgerEntry : Type 0 where
  pub subject_id : ℕ
  pub delta_seconds : ℤ
  pub entry_type : EntryType
  pub note : Option String
  pub ref_id : Option ℕ
  pub client_event_id : Option String
  pub device_id : Option ℕ
  pub occurred_at : ℕ

pub record DailyUsage : Type 0 where
  pub subject_id : ℕ
  pub day_key : ℕ
  pub spent_seconds : ℤ
  pub granted_at : Option ℕ

pub record Progress : Type 0 where
  pub subject_id : ℕ
  pub streak_current : ℕ
  pub streak_longest : ℕ
  pub freeze_tokens : ℤ
  pub last_study_day : Option ℕ
  pub sessions : ℕ
  pub correct_total : ℕ
  pub hard_total : ℕ
  pub essay_passed : ℕ
  pub photo_total : ℕ
  pub cross_lang : ℕ
  pub perfect_total : ℕ

pub record Achievement : Type 0 where
  pub subject_id : ℕ
  pub badge_code : String

pub record InstalledApp : Type 0 where
  pub subject_id : ℕ
  pub package_name : String
  pub label : String
  pub is_system : Bool
  pub version_name : Option String
  pub device_id : Option ℕ
  pub first_seen_at : ℕ
  pub last_seen_at : ℕ
  pub removed_at : Option ℕ

-- The JSON payloads that the code writes.
pub data Payload : Type 0 where
  no_payload : Payload
  replaced_by : ℕ → Payload
  reported : String → Option String → Payload
  apps_changed : List (String × String) → List (String × String) → Payload
  essay_attempt : ℕ → ℕ → Payload
  adjusted : ℤ → String → Payload
  changed : Changes → Payload

pub record GuardianEvent : Type 0 where
  pub subject_id : Option ℕ
  pub device_id : Option ℕ
  pub event_type : String
  pub payload : Payload
  pub occurred_at : ℕ

-- What an audit entry is about: the text of an identifier, or a text.
pub data AuditTarget : Type 0 where
  on_id : ℕ → AuditTarget
  on_text : String → AuditTarget

pub record AuditEntry : Type 0 where
  pub actor_user_id : Option ℕ
  pub action : String
  pub target : AuditTarget
  pub payload : Payload

pub data AlertKind : Type 0 where
  accessibility_off usage_access_off overlay_off protection_disabled device_silent : AlertKind

pub record GuardianAlert : Type 0 where
  pub id : ℕ
  pub subject_id : ℕ
  pub device_id : Option ℕ
  pub kind : AlertKind
  pub detail : Option String
  pub created_at : ℕ
  pub acknowledged_at : Option ℕ
  pub resolved_at : Option ℕ
