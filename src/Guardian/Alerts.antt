-- ===== src/Guardian/Alerts.antt =====
-- Which alerts are open after one is raised or resolved.
use brainxp_server.Guardian.{new_alert, open_of, raise_alert, resolve, resolved, same_kind}
use brainxp_server.Prelude.{
  Bool, Bool-cases, List, Option, String, [], ap, arith, false, if◌then◌else◌, inl, inr, refl, true,
  ℕ, ◌&&◌, ◌==◌, ◌∷◌, ◌≡◌, ◌≤◌,
}
use brainxp_server.Prelude.Rows.{
  count_where, count_where-append, count_where-exists_where, count_where-update_where-le,
  exists_where, exists_where-append, update_where,
}
use brainxp_server.Tables.{Db}
use brainxp_server.Tables.Activity.{AlertKind, GuardianAlert}

abbrev pub alert_open : ℕ → AlertKind → Db → Bool
alert_open subject kind db = exists_where (open_of subject kind) db.guardian_alerts

abbrev pub same_key : ℕ → AlertKind → ℕ → AlertKind → Bool
same_key subject kind s k = subject == s && same_kind kind k

module _ (subject : ℕ) (kind : AlertKind) (s : ℕ) (k : AlertKind) where
  same_open :
      (rows : List GuardianAlert)
      → same_key subject kind s k ≡ true
      → exists_where (open_of subject kind) rows ≡ exists_where (open_of s k) rows
  unfolding exists_where
  same_open [] h = refl
  same_open (a ∷ rows) h = ground (arith, same_open rows h)

  -- The alert that is raised is open afterwards, and the others are as they were.
  pub raise_alert_open :
      (detail : Option String) (device : Option ℕ) (at : ℕ) (db : Db)
      → alert_open s k (raise_alert subject kind detail device at db).1
        ≡ (if same_key subject kind s k then true else alert_open s k db)
  unfolding raise_alert exists_where
  raise_alert_open detail device at db =
      let row = new_alert db.alert_sequence subject kind detail device at in
      elim (Bool-cases (exists_where (open_of subject kind) db.guardian_alerts)) [
        | inl e ↦ rw e (elim (Bool-cases (same_key subject kind s k)) [
          | inl h ↦ rw (h, ← same_open db.guardian_alerts h) e
          | inr h ↦ rw h refl
        ])
        | inr e ↦
            rw (e, exists_where-append (open_of s k) db.guardian_alerts (row ∷ [])) (ground arith)
      ]

  closed_alert : (at : ℕ) (a : GuardianAlert) → open_of s k (resolved at a) ≡ false
  closed_alert at a = ground arith

  other_alert :
      (a : GuardianAlert)
      → same_key subject kind s k ≡ false
      → open_of subject kind a ≡ true
      → open_of s k a ≡ false
  other_alert a h e = ground arith

  same_alert :
      (a : GuardianAlert)
      → same_key subject kind s k ≡ true
      → open_of subject kind a ≡ false
      → open_of s k a ≡ false
  same_alert a h e = ground arith

  congr :
      {u v : Bool} (a : GuardianAlert)
      → u ≡ v
      → (if open_of s k a then true else u) ≡ (if open_of s k a then true else v)
  congr a e = ap (λ w. if open_of s k a then true else w) e

  resolve_rows :
      (at : ℕ) (rows : List GuardianAlert)
      → exists_where (open_of s k) (update_where (open_of subject kind) (resolved at) rows)
        ≡ (if same_key subject kind s k then false else exists_where (open_of s k) rows)
  unfolding exists_where update_where
  resolve_rows at [] = ground arith
  resolve_rows at (a ∷ rows) = elim (Bool-cases (open_of subject kind a)) [
    | inl e ↦
        rw (e, closed_alert at a)
          (elim (Bool-cases (same_key subject kind s k)) [
            | inl h ↦ rw h (rw h at (resolve_rows at rows))
            | inr h ↦ rw (h, other_alert a h e) (rw h at (resolve_rows at rows))
          ])
    | inr e ↦ rw e (elim (Bool-cases (same_key subject kind s k)) [
      | inl h ↦ rw (h, same_alert a h e) (rw h at (resolve_rows at rows))
      | inr h ↦ rw h (congr a (rw h at (resolve_rows at rows)))
    ])
  ]

  -- The alert that is resolved is not open afterwards, and the others are as they were.
  pub resolve_open :
      (at : ℕ) (db : Db)
      → alert_open s k (resolve subject kind at db)
        ≡ (if same_key subject kind s k then false else alert_open s k db)
  unfolding resolve
  resolve_open at db = resolve_rows at db.guardian_alerts

-- At most one open alert for every profile and kind, as the index says.
abbrev pub IsCalm : Db → Type 0
IsCalm db = (s : ℕ) (k : AlertKind) → count_where (open_of s k) db.guardian_alerts ≤ 1

pub raise_alert-IsCalm :
    (subject : ℕ) (kind : AlertKind) (detail : Option String) (device : Option ℕ) (at : ℕ) (db : Db)
    → IsCalm db
    → IsCalm (raise_alert subject kind detail device at db).1
unfolding raise_alert count_where
raise_alert-IsCalm subject kind detail device at db h s k =
    let row = new_alert db.alert_sequence subject kind detail device at in
    elim (Bool-cases (exists_where (open_of subject kind) db.guardian_alerts)) [
      | inl e ↦ rw e (h s k)
      | inr e ↦
          rw (e, count_where-append (open_of s k) db.guardian_alerts (row ∷ []))
            (elim (Bool-cases (same_key subject kind s k)) [
              | inl same ↦
                  let none_open =
                    count_where-exists_where (open_of s k) db.guardian_alerts
                      (rw (← same_open subject kind s k db.guardian_alerts same) e) in
                  ground (arith, none_open)
              | inr other ↦ ground (arith, h s k)
            ])
    ]

pub resolve-IsCalm :
    (subject : ℕ) (kind : AlertKind) (at : ℕ) (db : Db)
    → IsCalm db
    → IsCalm (resolve subject kind at db)
unfolding resolve
resolve-IsCalm subject kind at db h s k =
    let kills : (a : GuardianAlert)
        → open_of subject kind a ≡ true
        → open_of s k (resolved at a) ≡ false =
      λ a e. ground arith in
    omega (
      arith,
      h s k,
      count_where-update_where-le (open_of s k) (open_of subject kind) (resolved at) kills
          db.guardian_alerts,
    )
