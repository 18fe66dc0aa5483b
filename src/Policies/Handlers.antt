-- ===== src/Policies/Handlers.antt =====
-- The endpoints of app/routers/policies.py.
pub mod Guarded
pub mod Held
pub mod Kept
pub mod Delay
use brainxp_server.Deps.{Caller, require_policy_writer}
use brainxp_server.Ledger.{policy_of}
use brainxp_server.Policies.{Ratios, apply_changes, is_in, is_weakening, undo_window, weaken_delay}
use brainxp_server.Prelude.{
  Bool, List, Option, String, [], false, if◌then◌else◌, is_none, is_some, leb, ltb, none, not, some,
  str_eq, true, ℕ, ◌&&◌, ◌++◌, ◌+◌, ◌==◌, ◌∷◌,
}
use brainxp_server.Prelude.Exec.{
  Exec, Result, conflict, err, internal, lift, modify, not_found, ok, or_raise, pure, raise_if,
  ◌>>=◌, ◌>>◌,
}
use brainxp_server.Prelude.Rows.{first_where, update_where}
use brainxp_server.Tables.{Db}
use brainxp_server.Tables.Activity.{Changes, Policy, changed, on_id}
use brainxp_server.Tables.People.{Subject, personal}

pub record PolicyChangeOut : Type 0 where
  pub applied : Bool
  pub pending_until : Option ℕ

abbrev pub reply : Bool → Option ℕ → PolicyChangeOut
reply applied until = record { applied = applied; pending_until = until }

-- `_row`
abbrev pub policy_row : ℕ → Exec Db Policy
policy_row subject db = or_raise (first_where (policy_of subject) db.policies) not_found db

-- `select(T.subjects)….one()`
abbrev pub subject_row : ℕ → Exec Db Subject
subject_row subject db = or_raise (first_where (λ s. s.id == subject) db.subjects) internal db

abbrev pub is_personal : Subject → Bool
is_personal s = elim s.kind [ personal ↦ true | _ ↦ false ]

abbrev pub set_policy : ℕ → (Policy → Policy) → Exec Db Unit
set_policy subject f =
    modify (λ db. record db { policies = update_where (policy_of subject) f db.policies })

abbrev pub write_audit : Caller → String → ℕ → Changes → Exec Db Unit
write_audit me action subject c = modify (λ db. record db {
  audit_log =
      db.audit_log
      ++ record {
        actor_user_id = me.user_id;
        action = action;
        target = on_id subject;
        payload = changed c;
      }
        ∷ [];
})

abbrev pub no_changes : Changes
no_changes = record {
  questions_per_session = none;
  base_reward_seconds = none;
  essay_ratio = none;
  academic_level = none;
  question_language = none;
  daily_caps = none;
  daily_grants = none;
  idle_days_allowed = none;
  day_reset_hour = none;
  allowed_upload_methods = none;
  locked_apps = none;
  last_locked = none;
}

-- `not changes`
abbrev pub is_empty : Changes → Bool
is_empty c =
    is_none c.questions_per_session
    && is_none c.base_reward_seconds
    && is_none c.essay_ratio
    && is_none c.academic_level
    && is_none c.question_language
    && is_none c.daily_caps
    && is_none c.daily_grants
    && is_none c.idle_days_allowed
    && is_none c.day_reset_hour
    && is_none c.allowed_upload_methods
    && is_none c.locked_apps

-- The row with a request that waits until a day after `at`.
unfoldable pub postpone : Changes → Option ℕ → ℕ → Policy → Policy
postpone c updated_by at p = record p {
  pending_weaken_at = some (at + weaken_delay);
  pending_weaken_payload = some c;
  updated_by = updated_by;
  updated_at = at;
}

abbrev pub stamped : Option ℕ → ℕ → Policy → Policy
stamped user at p = record p { updated_by = user; updated_at = at }

-- The policy that `put_policy` leaves, and whether it took effect.
unfoldable pub put_change : Ratios → Caller → Changes → Bool → ℕ → Policy → Bool × Policy
unfolding postpone apply_changes
put_change R me c personal_profile at p =
    if personal_profile && is_weakening R p c
    then (false, postpone c me.user_id at p)
    else (true, stamped me.user_id at (apply_changes R c p))

-- PUT /policies/{subject_id}
unfoldable pub put_policy : Ratios → Caller → ℕ → Changes → ℕ → Exec Db PolicyChangeOut
unfolding put_change
put_policy R me subject c at = do
  require_policy_writer me subject
  current ← policy_row subject
  (if is_empty c then pure (reply false none) else do
    row ← subject_row subject
    let (applied, p) = put_change R me c (is_personal row) at current
    set_policy subject (λ _. p)
    write_audit me (if applied then "policy_updated" else "policy_weaken_requested") subject c
    pure (reply applied (if applied then none else some (at + weaken_delay))))

-- What `apply_pending` makes of the row. A stored key that is no column is refused by the database.
unfoldable pub apply_payload : Ratios → Option Changes → Policy → Result Policy
unfolding apply_changes
apply_payload R none p = ok p
apply_payload R (some c) p =
    if is_some c.last_locked then err internal else ok (apply_changes R c p)

abbrev pub settled : Option ℕ → ℕ → Policy → Policy
settled user at p = record p {
  pending_weaken_at = none;
  pending_weaken_payload = none;
  updated_by = user;
  updated_at = at;
}

unfoldable pub pending_change : Ratios → Caller → ℕ → Policy → Result Policy
unfolding apply_payload
pending_change R me at p = elim p.pending_weaken_at [
  | none ↦ err not_found
  | some due ↦
      if ltb at due
      then err (conflict "still_waiting")
      else elim (apply_payload R p.pending_weaken_payload p) [
        | ok q ↦ ok (settled me.user_id at q)
        | err e ↦ err e
      ]
]

-- POST /policies/{subject_id}/pending/apply
unfoldable pub apply_pending : Ratios → Caller → ℕ → ℕ → Exec Db PolicyChangeOut
unfolding pending_change
apply_pending R me subject at = do
  require_policy_writer me subject
  row ← policy_row subject
  p ← lift (pending_change R me at row)
  set_policy subject (λ _. p)
  pure (reply true none)

abbrev pub cancelled : ℕ → Policy → Policy
cancelled at p = record p {
  pending_weaken_at = none;
  pending_weaken_payload = none;
  updated_at = at;
}

-- DELETE /policies/{subject_id}/pending
unfoldable pub cancel_pending : Caller → ℕ → ℕ → Exec Db PolicyChangeOut
cancel_pending me subject at = do
  require_policy_writer me subject
  set_policy subject (cancelled at)
  pure (reply true none)

abbrev pub locked : Caller → String → ℕ → Policy → Policy
locked me package_name at p =
    stamped me.user_id at (record p { locked_apps = p.locked_apps ++ package_name ∷ [] })

-- POST /policies/{subject_id}/locked-apps/{package}
unfoldable pub lock_app : Caller → ℕ → String → ℕ → Exec Db PolicyChangeOut
lock_app me subject package_name at = do
  require_policy_writer me subject
  row ← policy_row subject
  (if is_in package_name row.locked_apps
      then pure (reply false none)
      else do set_policy subject (λ _. locked me package_name at row); pure (reply true none))

-- `[a for a in apps if a != package]`
unfoldable pub without : String → List String → List String
without x [] = []
without x (y ∷ ys) = let rest = without x ys in if str_eq y x then rest else y ∷ rest

abbrev pub last_locked_of : Policy → Option String
last_locked_of p = elim p.pending_weaken_payload [ none ↦ none | some c ↦ c.last_locked ]

-- `recently_added`
unfoldable pub recently_added : String → ℕ → Policy → Bool
recently_added package_name at p =
    leb at (p.updated_at + undo_window)
    && elim (last_locked_of p) [ none ↦ false | some x ↦ str_eq x package_name ]

-- The policy that `unlock_app` leaves, and whether it took effect.
unfoldable pub unlock_change : Caller → String → Bool → ℕ → Policy → Bool × Policy
unfolding postpone without
unlock_change me package_name personal_profile at p =
    let rest = without package_name p.locked_apps in
    if personal_profile && not (recently_added package_name at p)
    then (false, postpone (record no_changes { locked_apps = some rest }) p.updated_by at p)
    else (true, stamped me.user_id at (record p { locked_apps = rest }))

-- DELETE /policies/{subject_id}/locked-apps/{package}
unfoldable pub unlock_app : Caller → ℕ → String → ℕ → Exec Db PolicyChangeOut
unfolding unlock_change
unlock_app me subject package_name at = do
  require_policy_writer me subject
  row ← policy_row subject
  raise_if (not (is_in package_name row.locked_apps)) not_found
  profile ← subject_row subject
  let (applied, p) = unlock_change me package_name (is_personal profile) at row
  set_policy subject (λ _. p)
  pure (reply applied (if applied then none else some (at + weaken_delay)))
