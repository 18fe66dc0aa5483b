-- ===== src/Migrate/Tests.antt =====
-- Tests of the migrations.
use brainxp_server.Documents.{lookup_text}
use brainxp_server.Migrate.{
  Schema, latest, legacy_baseline, run_migrations, split_by, split_pending, stamps, text_leb,
}
use brainxp_server.Migrate.Resume.{IsPrefix, IsResumed, Migrated-IsResumed, again, blank, distinct}
use brainxp_server.Prelude.{Bool, List, String, [], not, refl, str_eq, true, ◌∷◌, ◌≡◌}
use brainxp_server.Prelude.Rows.{exists_where}
use brainxp_server.Prelude.Text.{same_codes}

abbrev three : List String
three =
    "20260903192248_create_audit_log.up.sql" ∷ "20260904143651_weekly.up.sql"
    ∷ "20260907112627_apps.up.sql" ∷ []

-- A database of the older scheme: what its second script covers is adopted.
legacy_test : split_pending three ("001_init.sql" ∷ "002_weekly_caps_and_idle_lock.sql" ∷ []) ≡ (
  "20260903192248_create_audit_log.up.sql" ∷ "20260904143651_weekly.up.sql" ∷ [],
  "20260907112627_apps.up.sql" ∷ [],
)
unfolding split_pending split_by legacy_baseline latest stamps text_leb exists_where lookup_text
    same_codes
legacy_test = refl

-- The second script raises once.
abbrev but_weekly : String → Bool
but_weekly name = not (str_eq name "20260904143651_weekly.up.sql")

abbrev all_work : String → Bool
all_work name = true

abbrev fresh_schema : Schema
fresh_schema = record { recorded = []; executed = [] }

abbrev after_failure : Schema
after_failure = (run_migrations but_weekly three fresh_schema).0

Migrated-IsResumed_example :
    IsPrefix three after_failure
    × IsResumed all_work three (run_migrations all_work three after_failure)
unfolding distinct exists_where stamps lookup_text same_codes
Migrated-IsResumed_example =
    Migrated-IsResumed three after_failure refl refl (again blank but_weekly) all_work
