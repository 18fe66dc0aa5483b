-- ===== src/Apps/Present.antt =====
-- The apps that are present after a sync.
use mathlib.Core.Path.{subst}
use brainxp_server.Apps.{
  AppIn, AppRef, app_diff, app_ref, assign_all, deduplicate, difference, gone, has_key, has_package,
  inserted, known_apps, seen_again, sync_rows, upsert_app, upsert_apps,
}
use brainxp_server.Apps.Packages.{assign_all_has, difference_has, known_has, present_app}
use brainxp_server.Prelude.{
  ==_self, Bool-cases, List, Option, String, [], ap, arith, eq_iff, false, if◌then◌else◌, inl, inr,
  map, not, refl, str_eq, sym, true, ℕ, ◌&&◌, ◌==◌, ◌∙◌, ◌∷◌, ◌≡◌,
}
use brainxp_server.Prelude.Rows.{exists_where, exists_where-append, update_where}
use brainxp_server.Tables.Activity.{InstalledApp}

module _ (subject : ℕ) (device : Option ℕ) (at : ℕ) (a : AppIn) where
  -- A row that is updated is present.
  updated_same :
      (p : String) (rows : List InstalledApp)
      → exists_where
          (present_app subject p)
          (update_where (has_key subject p) (seen_again device a at) rows)
        ≡ exists_where (has_key subject p) rows
  unfolding exists_where update_where
  updated_same p [] = refl
  updated_same p (r ∷ rows) = ground (arith, updated_same p rows)

  other_key :
      (p q : String) (r : InstalledApp)
      → str_eq q p ≡ false
      → has_key subject q r ≡ true
      → str_eq r.package_name p ≡ false
  other_key p q r apart h = elim (Bool-cases (str_eq r.package_name q)) [
    | inl e ↦ rw ((eq_iff r.package_name q).0 e) apart
    | inr e ↦ absurd (ground arith)
  ]

  updated_other :
      (p q : String) (rows : List InstalledApp)
      → str_eq q p ≡ false
      → exists_where
          (present_app subject p)
          (update_where (has_key subject q) (seen_again device a at) rows)
        ≡ exists_where (present_app subject p) rows
  unfolding exists_where update_where
  updated_other p q [] apart = refl
  updated_other p q (r ∷ rows) apart = elim (Bool-cases (has_key subject q r)) [
    | inl e ↦ ground (arith, other_key p q r apart e, updated_other p q rows apart)
    | inr e ↦ ground (arith, updated_other p q rows apart)
  ]

upsert_app_present :
    (subject : ℕ) (device : Option ℕ) (at : ℕ) (p : String) (a : AppIn) (rows : List InstalledApp)
    → exists_where (present_app subject p) (upsert_app subject device at a rows)
      ≡ (if str_eq a.package_name p then true else exists_where (present_app subject p) rows)
unfolding upsert_app exists_where
upsert_app_present subject device at p a rows =
    elim (Bool-cases (exists_where (has_key subject a.package_name) rows)) [
      | inl e ↦ rw e (elim (Bool-cases (str_eq a.package_name p)) [
        | inl s ↦
            let same = (eq_iff a.package_name p).0 s in
            rw s (
              subst
                (λ q.
                  exists_where (present_app subject p)
                    (update_where (has_key subject q) (seen_again device a at) rows)
                  ≡ exists_where (has_key subject q) rows)
                (sym same) (updated_same subject device at a p rows)
              ∙ e)
        | inr s ↦ rw s (updated_other subject device at a p a.package_name rows s)
      ])
      | inr e ↦
          rw
            (
              e,
              exists_where-append (present_app subject p) rows (inserted subject device a at ∷ []),
            )
            (ground (arith, ==_self subject))
    ]

upsert_apps_present :
    (subject : ℕ) (device : Option ℕ) (at : ℕ) (p : String) (apps : List AppIn)
    (rows : List InstalledApp)
    → exists_where (present_app subject p) (upsert_apps subject device at apps rows) ≡ (
        if has_package p (map app_ref apps)
        then true
        else exists_where (present_app subject p) rows)
unfolding upsert_apps has_package
upsert_apps_present subject device at p [] rows = refl
upsert_apps_present subject device at p (a ∷ apps) rows =
    rw
      (
        upsert_apps_present subject device at p apps (upsert_app subject device at a rows),
        upsert_app_present subject device at p a rows,
      )
      (ground arith)

removed_present :
    (subject at : ℕ) (p : String) (lost : List AppRef) (rows : List InstalledApp)
    → exists_where (present_app subject p) (
        update_where
          (λ r. r.subject_id == subject && has_package r.package_name lost)
          (gone at)
          rows)
      ≡ (if has_package p lost then false else exists_where (present_app subject p) rows)
unfolding exists_where update_where
removed_present subject at p lost [] = ground arith
removed_present subject at p lost (r ∷ rows) = elim (Bool-cases (str_eq r.package_name p)) [
  | inl e ↦
      let same = (eq_iff r.package_name p).0 e in
      let h : has_package r.package_name lost ≡ has_package p lost =
        ap (λ x. has_package x lost) same in
      ground (arith, h, removed_present subject at p lost rows)
  | inr e ↦ ground (arith, removed_present subject at p lost rows)
]

-- After a sync, the apps that the profile is seen to have, and that were not removed, are exactly those
-- that the phone reported, whatever was stored before and however often an app is listed.
pub sync_rows_present :
    (subject : ℕ) (device : Option ℕ) (apps : List AppIn) (at : ℕ) (p : String)
    (rows : List InstalledApp)
    → exists_where (present_app subject p) (sync_rows subject device apps at rows)
      ≡ has_package p (map app_ref apps)
unfolding sync_rows deduplicate has_package
sync_rows_present subject device apps at p rows =
    let latest = assign_all apps [] in
    let lost = difference (known_apps subject rows) (map app_ref latest) in
    rw
      (
        removed_present subject at p lost (upsert_apps subject device at latest rows),
        upsert_apps_present subject device at p latest rows,
        difference_has p (known_apps subject rows) (map app_ref latest),
        known_has subject p rows,
        assign_all_has p apps [],
      )
      (ground arith)

-- The difference that a sync reports: an app is among the installed ones exactly when it was reported
-- and not there before, and among the uninstalled ones exactly when it was there and not reported.
pub app_diff_lem :
    (subject : ℕ) (apps : List AppIn) (p : String) (rows : List InstalledApp)
    → let d = app_diff subject apps rows in
      (has_package p d.installed
        ≡ (has_package p (map app_ref apps) && not (exists_where (present_app subject p) rows)))
      × (has_package p d.uninstalled
          ≡ (exists_where (present_app subject p) rows && not (has_package p (map app_ref apps))))
unfolding app_diff deduplicate
app_diff_lem subject apps p rows =
    let incoming = map app_ref (assign_all apps []) in
    let same : has_package p incoming ≡ has_package p (map app_ref apps) =
      rw (assign_all_has p apps []) (unfold has_package in ground arith) in
    (
      rw (difference_has p incoming (known_apps subject rows), known_has subject p rows, same) refl,
      rw (difference_has p (known_apps subject rows) incoming, known_has subject p rows, same) refl,
    )
