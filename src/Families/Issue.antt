-- ===== src/Families/Issue.antt =====
-- `issue_pairing_code`, `create_own_subject` and the push token endpoints of app/routers/families.py.
use text.Mathlib.TextPositions.{eq_refl}
use brainxp_server.Auth.{of_user}
use brainxp_server.Deps.{Caller, authorize_subject, is_parent}
use brainxp_server.Devices.{has_code}
use brainxp_server.Families.{my_family, open_code_of, profile_audit}
use brainxp_server.Families.Codes.{CanPair}
use brainxp_server.Ledger.Handlers.{audit}
use brainxp_server.Prelude.{
  Bool, List, Option, String, [], arith, false, if◌then◌else◌, is_none, ltb, none, not, refl, some,
  take, true, ℕ, ◌&&◌, ◌*◌, ◌++◌, ◌+◌, ◌<◌, ◌==◌, ◌∷◌, ◌≡◌,
}
use brainxp_server.Prelude.Exec.{
  Exec, conflict, err, forbidden, internal, modify, ok, or_raise, pure, raise, raise_if, ◌>>=◌,
  ◌>>◌,
}
use brainxp_server.Prelude.Rows.{
  delete_where, exists_where, first_where, first_where-append, first_where-exists_where,
}
use brainxp_server.Profiles.{open_profile}
use brainxp_server.Push.{forget_token, remember}
use brainxp_server.Rules.Calendar.{second}
use brainxp_server.Tables.{Db}
use brainxp_server.Tables.Activity.{on_id}
use brainxp_server.Tables.People.{PairingCode, Subject, SubjectKind}

-- PAIRING_TTL: ten minutes.
abbrev pub pairing_ttl : ℕ
pairing_ttl = 600 * second

-- A code that has not expired yet stands in the way of a draw.
abbrev pub clashes : String → ℕ → PairingCode → Bool
clashes code at c = has_code code c && ltb at c.expires_at

-- The first of the draws that clashes with no code; the loop has five, and ends in a conflict.
unfoldable pub choose_code : List String → ℕ → List PairingCode → Option String
choose_code [] at codes = none
choose_code (d ∷ draws) at codes =
    if exists_where (clashes d at) codes then choose_code draws at codes else some d

abbrev pub code_draws : ℕ
code_draws = 5

abbrev pub new_code : String → ℕ → ℕ → ℕ → ℕ → PairingCode
new_code code house subject user at = record {
  code = code;
  family_id = house;
  subject_id = subject;
  issued_by = user;
  expires_at = at + pairing_ttl;
  consumed_at = none;
  attempt_count = 0;
}

-- The insert; a code that the table has, expired or not, violates its primary key.
unfoldable pub insert_code : PairingCode → Exec Db Unit
insert_code c db =
    if exists_where (has_code c.code) db.pairing_codes
    then err internal
    else ok (tt, record db { pairing_codes = db.pairing_codes ++ c ∷ [] })

-- What follows once the caller is a parent who may touch the profile, of the given family. The reply's
-- picture of the phone that is bound now is left out.
unfoldable pub issue_code : ℕ → ℕ → ℕ → List String → ℕ → Exec Db PairingCode
unfolding choose_code insert_code
issue_code house subject user draws at = do
  modify (λ db. record db { pairing_codes = delete_where (open_code_of subject) db.pairing_codes })
  code ← (λ db.
      or_raise (choose_code (take code_draws draws) at db.pairing_codes) (conflict "conflict") db)
  insert_code (new_code code house subject user at)
  pure (new_code code house subject user at)

-- POST /subjects/{subject_id}/pairing-code; a parent's profile has a family, and a parent is a user.
unfoldable pub issue_pairing_code : Caller → ℕ → List String → ℕ → Exec Db PairingCode
unfolding issue_code
issue_pairing_code me subject draws at = do
  raise_if (not (is_parent me)) forbidden
  s ← authorize_subject me subject
  house ← or_raise s.family_id internal
  user ← or_raise me.user_id internal
  issue_code house subject user draws at

abbrev pub is_own_profile : Option ℕ → Subject → Bool
is_own_profile user s =
    of_user user s
    && is_none s.deleted_at
    && elim s.kind [ SubjectKind.personal ↦ true | _ ↦ false ]

abbrev pub self_profile : ℕ → ℕ → ℕ → String → String → Subject
self_profile id house user name level = record {
  id = id;
  family_id = some house;
  user_id = some user;
  display_name = name;
  academic_level = level;
  kind = SubjectKind.personal;
  deleted_at = none;
}

-- POST /subjects/self
unfoldable pub create_own_subject : Caller → String → String → ℕ → ℕ → Exec Db Subject
unfolding my_family open_profile
create_own_subject me level language id at = do
  raise_if (not (is_parent me)) forbidden
  house ← my_family me
  (λ db.
      raise_if (exists_where (is_own_profile me.user_id) db.subjects)
        (conflict "self_subject_exists") db)
  user ← or_raise me.user_id internal
  account ← (λ db. or_raise (first_where (λ u. u.id == user) db.users) internal db)
  open_profile (self_profile id house user account.display_name level) language me.user_id at
  audit (profile_audit me "create_self_subject" (on_id id))
  pure (self_profile id house user account.display_name level)

-- POST /devices/push-token
unfoldable pub register_push_token : Caller → String → String → ℕ → Exec Db Unit
unfolding remember
register_push_token me token platform at =
    if is_none me.device_id && is_none me.user_id
    then raise forbidden
    else remember token platform me.user_id me.device_id at

-- DELETE /devices/push-token
unfoldable pub drop_push_token : Caller → String → ℕ → Exec Db Unit
unfolding forget_token
drop_push_token me token at = forget_token token me.user_id me.device_id at

-- Suppose that, once the profile's open codes are gone, one of the first five draws clashes with no code
-- that is still valid, and take the first. If the table has no row for it, the code is issued, and can
-- pair a phone at any moment of the next ten minutes. If the table still has an expired row for it, one
-- that was used or one of another profile, the request fails with an internal error.
pub issue_code_cases :
    (house subject user : ℕ) (draws : List String) (at : ℕ) (code : String) (db : Db)
    → let codes = delete_where (open_code_of subject) db.pairing_codes in
      choose_code (take code_draws draws) at codes ≡ some code
      → let c = new_code code house subject user at in
        (exists_where (has_code code) codes ≡ true
          → issue_code house subject user draws at db ≡ err internal)
        × (exists_where (has_code code) codes ≡ false
            → (db' : Db) × (issue_code house subject user draws at db ≡ ok (c, db'))
              × (first_where (has_code code) db'.pairing_codes ≡ some c)
              × ((t : ℕ) → t < at + pairing_ttl → CanPair c t))
unfolding issue_code insert_code
issue_code_cases house subject user draws at code db chosen =
    let codes = delete_where (open_code_of subject) db.pairing_codes in
    let c = new_code code house subject user at in
    (
      λ stale. rw (chosen, stale) refl,
      λ free. (
        record db { pairing_codes = codes ++ c ∷ [] },
        rw (chosen, free) refl,
        first_where-append (has_code code) codes c
            (first_where-exists_where (has_code code) codes free) (eq_refl code),
        λ t soon. (omega arith, refl, soon),
      ),
    )
