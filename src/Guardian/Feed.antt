-- ===== src/Guardian/Feed.antt =====
-- `acknowledge_alert` of app/routers/guardian.py; the reply, which names the profile, is the row.
use brainxp_server.Deps.{Caller, authorize_subject, is_child}
use brainxp_server.Deps.Access.{authorize_subject_iff}
use brainxp_server.Guardian.{open_of}
use brainxp_server.Guardian.Alerts.{IsCalm}
use brainxp_server.Prelude.{
  Bool-cases, arith, false, if◌then◌else◌, inl, inr, is_some, some, true, ℕ, ◌==◌, ◌≡◌,
}
use brainxp_server.Prelude.Exec.{
  Exec, forbidden, modify, not_found, or_raise, pure, raise_if, ◌>>=◌, ◌>>◌,
}
use brainxp_server.Prelude.Rows.{count_where-update_where-le, first_where, update_where}
use brainxp_server.Prelude.Triple.{Post, Post-bind, Post-map, Triple, Triple-read, raise_if-keeps}
use brainxp_server.Tables.{Db}
use brainxp_server.Tables.Activity.{GuardianAlert}

abbrev pub acknowledged : ℕ → GuardianAlert → GuardianAlert
acknowledged at a = record a { acknowledged_at = some at }

-- What follows once the row is found and the caller may touch its profile.
unfoldable pub close_alert : GuardianAlert → ℕ → Exec Db GuardianAlert
close_alert a at = if is_some a.acknowledged_at then pure a else do
  modify (λ db. record db {
    guardian_alerts = update_where (λ x. x.id == a.id) (acknowledged at) db.guardian_alerts;
  })
  pure (acknowledged at a)

-- The query joins the profile, which the foreign key keeps in place.
unfoldable pub acknowledge_alert : Caller → ℕ → ℕ → Exec Db GuardianAlert
unfolding close_alert
acknowledge_alert me alert at = do
  row ← (λ db. or_raise (first_where (λ a. a.id == alert) db.guardian_alerts) not_found db)
  authorize_subject me row.subject_id
  raise_if (is_child me) forbidden
  close_alert row at

close_alert-IsCalm :
    (row : GuardianAlert) (at : ℕ) (db : Db)
    → IsCalm db
    → Post (λ _. IsCalm) (close_alert row at db)
unfolding close_alert
close_alert-IsCalm row at db h = elim (Bool-cases (is_some row.acknowledged_at)) [
  | inl e ↦ rw e h
  | inr e ↦ rw e (λ s k.
      let kills : (a : GuardianAlert)
          → (a.id == row.id) ≡ true
          → open_of s k (acknowledged at a) ≡ false =
        λ a q. ground arith in
      omega (
        arith,
        h s k,
        count_where-update_where-le (open_of s k) (λ x. x.id == row.id) (acknowledged at) kills
            db.guardian_alerts,
      ))
]

pub acknowledge_alert-IsCalm :
    (me : Caller) (alert at : ℕ) → Triple IsCalm (acknowledge_alert me alert at) (λ _. IsCalm)
unfolding acknowledge_alert
acknowledge_alert-IsCalm me alert at =
    Triple-read IsCalm (λ db. first_where (λ a. a.id == alert) db.guardian_alerts) not_found _ _
      (λ row db found h.
        Post-bind (authorize_subject me row.subject_id) _ db (λ _. IsCalm) (λ _. IsCalm)
          (Post-map _ _ (authorize_subject me row.subject_id db) (λ r db' p. rw p.0 h)
            (authorize_subject_iff me row.subject_id db).0)
          (λ _ db' h'.
            Post-bind (raise_if (is_child me) forbidden) _ db' (λ _. IsCalm) (λ _. IsCalm)
              (raise_if-keeps IsCalm (is_child me) forbidden db' h')
              (λ _ db'' h''. close_alert-IsCalm row at db'' h'')))
