-- ===== src/Auth/Accounts.antt =====
-- `register` and `login` of app/routers/auth.py. The password hasher, the identifiers of the new rows and
-- the verdict of the rate limit are parameters; an email is given as `lower()` returns it.
pub mod Entry
use brainxp_server.Auth.{Fresh, TokenOut, issue_pair, subject_id_of}
use brainxp_server.Deps.{Caller}
use brainxp_server.Ledger.Handlers.{audit}
use brainxp_server.Prelude.{
  Bool, Option, String, [], equals_id, false, is_none, none, not, some, str_eq, ℕ, ◌&&◌, ◌++◌, ◌==◌,
  ◌∷◌,
}
use brainxp_server.Prelude.Exec.{
  Exec, conflict, gets, modify, or_raise, pure, raise_if, rate_limited, unauthorized, ◌>>=◌, ◌>>◌,
}
use brainxp_server.Prelude.Rows.{exists_where, first_where}
use brainxp_server.Profiles.{open_profile}
use brainxp_server.Tables.{Db}
use brainxp_server.Tables.Activity.{AuditEntry, no_payload, on_text}
use brainxp_server.Tables.People.{FamilyMember, Role, Subject, SubjectKind, User}

pub data Mode : Type 0 where
  family personal_mode : Mode

pub record Registration : Type 0 where
  pub email : String
  pub password : String
  pub display_name : String
  pub mode : Mode

-- The identifiers that the database draws for the rows of a new account.
pub record NewIds : Type 0 where
  pub user : ℕ
  pub family : ℕ
  pub subject : ℕ

abbrev pub has_email : String → User → Bool
has_email email u = elim u.email [ none ↦ false | some e ↦ str_eq e email ]

abbrev pub role_of : Mode → Role
role_of family = Role.parent
role_of personal_mode = Role.personal

abbrev pub role_text : Mode → String
role_text family = "parent"
role_text personal_mode = "personal"

abbrev pub registered : Mode → NewIds → AuditEntry
registered mode ids = record {
  actor_user_id = some ids.user;
  action = "register";
  target = on_text (role_text mode);
  payload = no_payload;
}

abbrev pub own_profile : ℕ → ℕ → String → Subject
own_profile id user name = record {
  id = id;
  family_id = none;
  user_id = some user;
  display_name = name;
  academic_level = "profesional";
  kind = SubjectKind.personal;
  deleted_at = none;
}

-- The rows of the account besides the user: a family and its parent, or a profile of one's own.
unfoldable pub settle_in : Mode → NewIds → String → ℕ → Exec Db (Option ℕ × Option ℕ)
unfolding open_profile
settle_in family ids name at = do
  modify (λ db. record db {
    families = db.families ++ record { id = ids.family; owner_user_id = ids.user } ∷ [];
  })
  modify (λ db. record db {
    family_members =
        db.family_members
        ++ record { family_id = ids.family; user_id = ids.user; role = Role.parent } ∷ [];
  })
  pure (some ids.family, none)
settle_in personal_mode ids name at = do
  open_profile (own_profile ids.subject ids.user name) "id" (some ids.user) at
  pure (none, some ids.subject)

abbrev pub alive_profile_of : ℕ → Subject → Bool
alive_profile_of user s = equals_id s.user_id user && is_none s.deleted_at

abbrev pub member_of : Option FamilyMember → Option ℕ
member_of none = none
member_of (some m) = some m.family_id

module _ (sha256 : String → String) (refresh_ttl : ℕ) (hash_password : String → String)
    (verify_password : String → String → Bool) where
  abbrev pub new_user : Registration → NewIds → User
  new_user body ids = record {
    id = ids.user;
    email = some body.email;
    password_hash = some (hash_password body.password);
    role = role_of body.mode;
    display_name = body.display_name;
    deleted_at = none;
  }

  abbrev pub claims_of : ℕ → Option ℕ → Role → Caller
  claims_of user subject role = record {
    user_id = some user;
    subject_id = subject;
    role = role;
    device_id = none;
  }

  -- POST /auth/register
  unfoldable pub register : Bool → Registration → NewIds → Fresh → ℕ → Exec Db TokenOut
  unfolding settle_in issue_pair
  register within body ids new at = do
    raise_if (not within) rate_limited
    (λ db. raise_if (exists_where (has_email body.email) db.users) (conflict "email_taken") db)
    modify (λ db. record db { users = db.users ++ new_user body ids ∷ [] })
    rows ← settle_in body.mode ids body.display_name at
    let me = claims_of ids.user rows.1 (role_of body.mode)
    issue_pair sha256 refresh_ttl me none new at
    audit (registered body.mode ids)
    pure (record { claims = me; refresh_token = new.raw; family_id = rows.0 })

  -- The checks of `login` on the row that was found.
  unfoldable pub admits : User → String → Bool
  admits u password = is_none u.deleted_at && elim u.password_hash [
    | none ↦ false
    | some h ↦ not (str_eq h "") && verify_password h password
  ]

  -- POST /auth/login
  unfoldable pub login : Bool → String → String → Fresh → ℕ → Exec Db TokenOut
  unfolding admits issue_pair
  login within email password new at = do
    raise_if (not within) rate_limited
    row ← (λ db. or_raise (first_where (has_email email) db.users) unauthorized db)
    raise_if (not (admits row password)) unauthorized
    subject ← gets (λ db. subject_id_of (first_where (alive_profile_of row.id) db.subjects))
    house ← gets (λ db. member_of (first_where (λ m. m.user_id == row.id) db.family_members))
    let me = claims_of row.id subject row.role
    issue_pair sha256 refresh_ttl me none new at
    pure (record { claims = me; refresh_token = new.raw; family_id = house })
