-- ===== src/Apps/Tests.antt =====
-- Two syncs of a concrete phone.
use brainxp_server.Apps.{
  AppIn, app_diff, app_ref, assign, assign_all, deduplicate, difference, has_package, insert_ref,
  inserted, sync_rows,
}
use brainxp_server.Apps.Packages.{present_app}
use brainxp_server.Apps.Present.{app_diff_lem, sync_rows_present}
use brainxp_server.Prelude.{List, String, [], false, map, none, not, refl, some, ◌&&◌, ◌∷◌, ◌≡◌}
use brainxp_server.Prelude.Rows.{exists_where, rows_where}
use brainxp_server.Tables.Activity.{InstalledApp}

abbrev app_named : String → AppIn
app_named p = record { package_name = p; label = p; is_system = false; version_name = none }

abbrev before : List InstalledApp
before = inserted 5 (some 7) (app_named "chess") 10 ∷ inserted 5 (some 7) (app_named "maps") 10 ∷ []

sync_rows_present_example :
    exists_where
      (present_app 5 "maps")
      (sync_rows 5 (some 7) (app_named "chess" ∷ app_named "go" ∷ app_named "chess" ∷ []) 20 before)
    ≡ false
unfolding has_package
sync_rows_present_example =
    sync_rows_present 5 (some 7) (app_named "chess" ∷ app_named "go" ∷ app_named "chess" ∷ []) 20
      "maps" before

app_diff_test :
    app_diff 5 (app_named "go" ∷ app_named "atlas" ∷ app_named "chess" ∷ []) before ≡ record {
      installed = ("atlas", "atlas") ∷ ("go", "go") ∷ [];
      uninstalled = ("maps", "maps") ∷ [];
      present = 3;
      baseline = false;
    }
unfolding app_diff deduplicate assign_all assign difference has_package insert_ref rows_where
app_diff_test = refl

app_diff_lem_example :
    let d = app_diff 5 (app_named "go" ∷ []) before in
    (has_package "maps" d.installed ≡ (
      has_package "maps" (map app_ref (app_named "go" ∷ []))
      && not (exists_where (present_app 5 "maps") before)))
    × (has_package "maps" d.uninstalled ≡ (
        exists_where (present_app 5 "maps") before
        && not (has_package "maps" (map app_ref (app_named "go" ∷ [])))))
app_diff_lem_example = app_diff_lem 5 (app_named "go" ∷ []) "maps" before
