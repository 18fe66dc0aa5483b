-- ===== src/Apps/Packages.antt =====
-- Which packages a list of references has.
use brainxp_server.Apps.{
  AppIn, AppRef, app_ref, assign, assign_all, difference, has_package, insert_ref, known_apps,
}
use brainxp_server.Prelude.{
  Bool, Bool-cases, List, String, [], arith, eq_iff, false, if◌then◌else◌, inl, inr, is_none, map,
  not, refl, str_eq, true, ℕ, ◌&&◌, ◌==◌, ◌∙◌, ◌∷◌, ◌≡◌,
}
use brainxp_server.Prelude.Rows.{exists_where, rows_where}
use brainxp_server.Tables.Activity.{InstalledApp}

-- The profile has the app, and it was not removed.
abbrev pub present_app : ℕ → String → InstalledApp → Bool
present_app subject p r = r.subject_id == subject && str_eq r.package_name p && is_none r.removed_at

insert_ref_has :
    (p : String) (r : AppRef) (refs : List AppRef)
    → has_package p (insert_ref r refs) ≡ (if str_eq r.0 p then true else has_package p refs)
unfolding insert_ref has_package
insert_ref_has p r [] = ground arith
insert_ref_has p r (s ∷ refs) = ground (arith, insert_ref_has p r refs)

pub difference_has :
    (p : String) (refs others : List AppRef)
    → has_package p (difference refs others) ≡ (has_package p refs && not (has_package p others))
unfolding difference has_package
difference_has p [] others = refl
difference_has p (r ∷ refs) others = elim (Bool-cases (has_package r.0 others)) [
  | inl e ↦ rw e (difference_has p refs others ∙ kept r.0 p e)
  | inr e ↦
      rw (e, insert_ref_has p r (difference refs others), difference_has p refs others)
        (added r.0 p e)
]
  where
    kept :
        (q p : String)
        → has_package q others ≡ true
        → (has_package p refs && not (has_package p others))
          ≡ ((if str_eq q p then true else has_package p refs) && not (has_package p others))
    kept q p e = elim (Bool-cases (str_eq q p)) [
      | inl s ↦
          let same = (eq_iff q p).0 s in
          let e' : has_package p others ≡ true = rw (← same) e in rw (s, e') (ground arith)
      | inr s ↦ rw s refl
    ]

    added :
        (q p : String)
        → has_package q others ≡ false
        → (if str_eq q p then true else (has_package p refs && not (has_package p others)))
          ≡ ((if str_eq q p then true else has_package p refs) && not (has_package p others))
    added q p e = elim (Bool-cases (str_eq q p)) [
      | inl s ↦
          let same = (eq_iff q p).0 s in
          let e' : has_package p others ≡ false = rw (← same) e in rw (s, e') refl
      | inr s ↦ rw s refl
    ]

pub known_has :
    (subject : ℕ) (p : String) (rows : List InstalledApp)
    → has_package p (known_apps subject rows) ≡ exists_where (present_app subject p) rows
unfolding has_package rows_where exists_where
known_has subject p [] = refl
known_has subject p (r ∷ rows) = ground (arith, known_has subject p rows)

assign_has :
    (p : String) (a : AppIn) (apps : List AppIn)
    → has_package p (map app_ref (assign a apps))
      ≡ (if str_eq a.package_name p then true else has_package p (map app_ref apps))
unfolding assign has_package
assign_has p a [] = ground arith
assign_has p a (b ∷ apps) = elim (Bool-cases (str_eq b.package_name a.package_name)) [
  | inl e ↦ let same = (eq_iff b.package_name a.package_name).0 e in rw (e, same) (ground arith)
  | inr e ↦ rw e (ground (arith, assign_has p a apps))
]

pub assign_all_has :
    (p : String) (apps latest : List AppIn)
    → has_package p (map app_ref (assign_all apps latest))
      ≡ (if has_package p (map app_ref apps) then true else has_package p (map app_ref latest))
unfolding assign_all has_package
assign_all_has p [] latest = refl
assign_all_has p (a ∷ apps) latest =
    rw (assign_all_has p apps (assign a latest), assign_has p a latest) (ground arith)
