-- ===== src/Samples.antt =====
-- Data for the tests.
pub mod Study
use brainxp_server.Deps.{Caller}
use brainxp_server.Prelude.{List, [], none, some, ◌∷◌}
use brainxp_server.Prelude.Int.{pos, ℤ}
use brainxp_server.Tables.{Db, empty_db}
use brainxp_server.Tables.Activity.{Policy}
use brainxp_server.Tables.People.{Role, Subject, personal}

-- The same figure on every day.
abbrev pub week_of : ℤ → List ℤ
week_of x = x ∷ x ∷ x ∷ x ∷ x ∷ x ∷ x ∷ []

-- A personal profile, and the account that owns it.
abbrev pub subject_five : Subject
subject_five = record {
  id = 5;
  family_id = none;
  user_id = some 1;
  display_name = "Sari";
  academic_level = "smp";
  kind = personal;
  deleted_at = none;
}

abbrev pub owner : Caller
owner = record { user_id = some 1; subject_id = some 5; role = Role.personal; device_id = none }

-- Half an hour of grant and an hour of cap on every day.
abbrev pub policy_five : Policy
policy_five = record {
  subject_id = 5;
  questions_per_session = pos 5;
  base_reward_seconds = pos 60;
  essay_ratio = 50;
  academic_level = "smp";
  question_language = "id";
  daily_caps = week_of (pos 3600);
  daily_grants = week_of (pos 1800);
  idle_days_allowed = pos 3;
  day_reset_hour = 4;
  allowed_upload_methods = [];
  locked_apps = [];
  pending_weaken_at = none;
  pending_weaken_payload = none;
  updated_by = none;
  updated_at = 0;
}

abbrev pub db_five : Db
db_five = record empty_db { subjects = subject_five ∷ []; policies = policy_five ∷ [] }
