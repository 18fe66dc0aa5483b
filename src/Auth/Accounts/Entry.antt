-- ===== src/Auth/Accounts/Entry.antt =====
-- Who registered can log in.
use text.Mathlib.TextPositions.{eq_refl}
use brainxp_server.Auth.{Fresh, TokenOut, has_hash, issue_pair, issued, subject_id_of}
use brainxp_server.Auth.Accounts.{
  Mode, NewIds, Registration, admits, alive_profile_of, claims_of, family, has_email, login,
  member_of, new_user, own_profile, personal_mode, register, registered, settle_in,
}
use brainxp_server.Prelude.{
  ==_self, Bool, List, Option, String, [], arith, false, none, refl, some, str_eq, true, ℕ, ◌++◌,
  ◌==◌, ◌∷◌, ◌≡◌,
}
use brainxp_server.Prelude.Exec.{ok}
use brainxp_server.Prelude.Rows.{
  exists_where, exists_where-append, first_where, first_where-append, first_where-exists_where,
}
use brainxp_server.Profiles.{new_policy, open_profile}
use brainxp_server.Progress.{ensure_row, ensure_rows}
use brainxp_server.Tables.{Db}
use brainxp_server.Tables.People.{FamilyMember, RefreshToken, Role, User}

abbrev pub registration : String → String → String → Mode → Registration
registration email password name mode = record {
  email = email;
  password = password;
  display_name = name;
  mode = mode;
}

module _ (sha256 : String → String) (refresh_ttl : ℕ) (hash_password : String → String)
    (verify_password : String → String → Bool) (email password name : String) where
  abbrev account : Mode → NewIds → User
  account mode ids =
      new_user sha256 refresh_ttl hash_password verify_password
        (registration email password name mode) ids

  -- What `login` answers when its account is found and admitted.
  login-ok :
      (again : Fresh) (later : ℕ) (u : User) (subject house : Option ℕ) (db : Db)
      → first_where (has_email email) db.users ≡ some u
      → admits sha256 refresh_ttl hash_password verify_password u password ≡ true
      → subject_id_of (first_where (alive_profile_of u.id) db.subjects) ≡ subject
      → member_of (first_where (λ m. m.user_id == u.id) db.family_members) ≡ house
      → exists_where (has_hash (sha256 again.raw)) db.refresh_tokens ≡ false
      → let me = claims_of sha256 refresh_ttl hash_password verify_password u.id subject u.role in
        login sha256 refresh_ttl hash_password verify_password true email password again later db
        ≡ ok (
          record { claims = me; refresh_token = again.raw; family_id = house },
          record db {
            refresh_tokens =
                db.refresh_tokens ++ issued sha256 refresh_ttl me again.chain again later ∷ [];
          },
        )
  unfolding login issue_pair
  login-ok again later u subject house db found good who where_ free =
      rw (found, good, who, where_, free) refl

  found_user :
      (u : User) (rows : List User)
      → exists_where (has_email email) rows ≡ false
      → u.email ≡ some email
      → first_where (has_email email) (rows ++ u ∷ []) ≡ some u
  found_user u rows unheard own =
      first_where-append (has_email email) rows u
        (first_where-exists_where (has_email email) rows unheard) (ground (arith, eq_refl email))

  admitted :
      (mode : Mode) (ids : NewIds)
      → verify_password (hash_password password) password ≡ true
      → str_eq (hash_password password) "" ≡ false
      → admits sha256 refresh_ttl hash_password verify_password
          (new_user sha256 refresh_ttl hash_password verify_password
            (registration email password name mode)
            ids)
          password
        ≡ true
  unfolding admits
  admitted mode ids ok_hash full = rw (ok_hash, full) refl

  free_after :
      (t : RefreshToken) (again : Fresh) (rows : List RefreshToken)
      → exists_where (has_hash (sha256 again.raw)) rows ≡ false
      → str_eq t.token_hash (sha256 again.raw) ≡ false
      → exists_where (has_hash (sha256 again.raw)) (rows ++ t ∷ []) ≡ false
  free_after t again rows free apart =
      let at_end : exists_where (has_hash (sha256 again.raw)) (t ∷ []) ≡ false =
        unfold exists_where in rw apart refl in
      rw (exists_where-append (has_hash (sha256 again.raw)) rows (t ∷ []), free, at_end) refl

  -- Take an email that no account has, identifiers that no row has, two new token texts whose hashes
  -- differ from each other's and from those in the table, and a hasher that recognises its own output
  -- for the password and never returns an empty text. Then `register` is answered, for a family and for
  -- a personal account, and a later `login` with the same email and password is answered for the same
  -- account: the same user, profile, role and family.
  pub register-login :
      (mode : Mode) (ids : NewIds) (new again : Fresh) (at later : ℕ) (db : Db)
      → let body = registration email password name mode in
        verify_password (hash_password password) password ≡ true
        → str_eq (hash_password password) "" ≡ false
        → exists_where (has_email email) db.users ≡ false
        → exists_where (alive_profile_of ids.user) db.subjects ≡ false
        → exists_where (λ m. m.user_id == ids.user) db.family_members ≡ false
        → exists_where (has_hash (sha256 new.raw)) db.refresh_tokens ≡ false
        → exists_where (has_hash (sha256 again.raw)) db.refresh_tokens ≡ false
        → str_eq (sha256 new.raw) (sha256 again.raw) ≡ false
        → (out : TokenOut) × (db' : Db) × (out' : TokenOut) × (db'' : Db) × (register sha256
              refresh_ttl hash_password verify_password true body ids new at db
            ≡ ok (out, db'))
          × (login sha256 refresh_ttl hash_password verify_password true email password again later
                db'
              ≡ ok (out', db''))
          × (out'.claims ≡ out.claims)
          × (out'.family_id ≡ out.family_id)
  unfolding register login settle_in open_profile ensure_row issue_pair admits
  register-login family ids new again at later db ok_hash full unheard no_profile no_family free
        free' apart =
      let me =
        claims_of sha256 refresh_ttl hash_password verify_password ids.user none Role.parent in
      let m : FamilyMember = record {
        family_id = ids.family;
        user_id = ids.user;
        role = Role.parent;
      } in
      let db' : Db = record db {
        users = db.users ++ account family ids ∷ [];
        families = db.families ++ record { id = ids.family; owner_user_id = ids.user } ∷ [];
        family_members = db.family_members ++ m ∷ [];
        refresh_tokens = db.refresh_tokens ++ issued sha256 refresh_ttl me new.chain new at ∷ [];
        audit_log = db.audit_log ++ registered family ids ∷ [];
      } in
      let of_family =
        first_where-append (λ x. x.user_id == ids.user) db.family_members m
          (first_where-exists_where (λ x. x.user_id == ids.user) db.family_members no_family)
          (==_self ids.user) in
      let of_profile =
        first_where-exists_where (alive_profile_of ids.user) db.subjects no_profile in
      (
        record { claims = me; refresh_token = new.raw; family_id = some ids.family },
        db',
        _,
        _,
        rw (unheard, free) refl,
        login-ok again later (account family ids) none (some ids.family) db'
            (found_user (account family ids) db.users unheard refl)
            (admitted family ids ok_hash full) (rw of_profile refl) (rw of_family refl)
            (free_after (issued sha256 refresh_ttl me new.chain new at) again db.refresh_tokens
              free' apart),
        refl,
        refl,
      )
  register-login personal_mode ids new again at later db ok_hash full unheard no_profile no_family
        free free' apart =
      let me =
        claims_of sha256 refresh_ttl hash_password verify_password ids.user (some ids.subject)
          Role.personal in
      let s = own_profile ids.subject ids.user name in
      let db' : Db = record db {
        users = db.users ++ account personal_mode ids ∷ [];
        subjects = db.subjects ++ s ∷ [];
        policies = db.policies ++ new_policy ids.subject "profesional" "id" (some ids.user) at ∷ [];
        progress = ensure_rows ids.subject db.progress;
        refresh_tokens = db.refresh_tokens ++ issued sha256 refresh_ttl me new.chain new at ∷ [];
        audit_log = db.audit_log ++ registered personal_mode ids ∷ [];
      } in
      let of_family =
        first_where-exists_where (λ x. x.user_id == ids.user) db.family_members no_family in
      let of_profile =
        first_where-append (alive_profile_of ids.user) db.subjects s
          (first_where-exists_where (alive_profile_of ids.user) db.subjects no_profile)
          (ground (arith, ==_self ids.user)) in
      (
        record { claims = me; refresh_token = new.raw; family_id = none },
        db',
        _,
        _,
        rw (unheard, free) refl,
        login-ok again later (account personal_mode ids) (some ids.subject) none db'
            (found_user (account personal_mode ids) db.users unheard refl)
            (admitted personal_mode ids ok_hash full) (rw of_profile refl) (rw of_family refl)
            (free_after (issued sha256 refresh_ttl me new.chain new at) again db.refresh_tokens
              free' apart),
        refl,
        refl,
      )
