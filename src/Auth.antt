-- ===== src/Auth.antt =====
-- app/routers/auth.py: the tokens that a session goes on with. SHA-256, the random texts and
-- identifiers, the password hasher and the lifetime setting are parameters. The signature of an access
-- token is left out: a reply holds its claims.
pub mod Rotation
pub mod Replay
pub mod Logout
pub mod Accounts
mod Tests
use brainxp_server.Deps.{Caller}
use brainxp_server.Prelude.{
  Bool, List, Option, String, [], equals_id, false, if◌then◌else◌, is_none, is_some, leb, ltb, none,
  not, or_else, some, str_eq, ℕ, ◌&&◌, ◌*◌, ◌++◌, ◌+◌, ◌==◌, ◌||◌, ◌∷◌,
}
use brainxp_server.Prelude.Exec.{
  Exec, Result, err, internal, lift, modify, ok, or_raise, pure, raise, unauthorized, ◌>>=◌, ◌>>◌,
}
use brainxp_server.Prelude.Rows.{exists_where, first_where, update_where}
use brainxp_server.Rules.Calendar.{second}
use brainxp_server.Tables.{Db}
use brainxp_server.Tables.People.{RefreshToken, Role, Subject}

-- What a request draws: the new token's text, its row's identifier and an identifier for a new chain.
pub record Fresh : Type 0 where
  pub raw : String
  pub id : ℕ
  pub chain : ℕ

pub record TokenOut : Type 0 where
  pub claims : Caller
  pub refresh_token : String
  pub family_id : Option ℕ

-- REPLAY_GRACE: half a minute.
abbrev pub replay_grace : ℕ
replay_grace = 30 * second

unfoldable pub replay_is_recoverable : ℕ → Bool → ℕ → Bool
replay_is_recoverable used_at chain_moved_on at =
    not chain_moved_on && leb at (used_at + replay_grace)

abbrev pub used_later : ℕ → ℕ → RefreshToken → Bool
used_later chain used_at t =
    t.family_chain == chain && elim t.used_at [ none ↦ false | some u ↦ ltb used_at u ]

-- `_chain_moved_on`
unfoldable pub chain_moved_on : ℕ → ℕ → List RefreshToken → Bool
chain_moved_on chain used_at rows = exists_where (used_later chain used_at) rows

abbrev pub has_hash : String → RefreshToken → Bool
has_hash digest t = str_eq t.token_hash digest

abbrev pub in_chain : ℕ → RefreshToken → Bool
in_chain chain t = t.family_chain == chain

-- A token of the chain that was not yet used and not revoked.
abbrev pub is_live : ℕ → RefreshToken → Bool
is_live chain t = t.family_chain == chain && is_none t.used_at && is_none t.revoked_at

abbrev pub revoked : ℕ → RefreshToken → RefreshToken
revoked at t = record t { revoked_at = some at }

abbrev pub used : ℕ → RefreshToken → RefreshToken
used at t = record t { used_at = some at }

-- The three refusals of `refresh`, and what it does to the chain before it issues a token.
unfoldable pub spend : RefreshToken → ℕ → Exec Db Unit
unfolding replay_is_recoverable chain_moved_on
spend row at db =
    if is_some row.revoked_at || leb row.expires_at at then err unauthorized else elim row.used_at [
      | none ↦ ok (
        tt,
        record db {
          refresh_tokens = update_where (λ t. t.id == row.id) (used at) db.refresh_tokens;
        },
      )
      | some u ↦
          if replay_is_recoverable u (chain_moved_on row.family_chain u db.refresh_tokens) at
          then ok (
            tt,
            record db {
              refresh_tokens =
                  update_where (is_live row.family_chain) (revoked at) db.refresh_tokens;
            },
          )
          else (do
            modify (λ s. record s {
              refresh_tokens =
                  update_where (in_chain row.family_chain) (revoked at) s.refresh_tokens;
            })
            raise unauthorized)
              db
    ]

abbrev pub of_user : Option ℕ → Subject → Bool
of_user user s = elim user [ none ↦ false | some u ↦ equals_id s.user_id u ]

abbrev pub subject_id_of : Option Subject → Option ℕ
subject_id_of none = none
subject_id_of (some s) = some s.id

-- Whose session it is: the user's, with the first profile that is found, or the device's.
unfoldable pub identity : RefreshToken → Db → Result Caller
identity row db = elim row.user_id [
  | some u ↦ elim (first_where (λ x. x.id == u) db.users) [
    | none ↦ err internal
    | some user ↦ ok (record {
      user_id = some u;
      subject_id = subject_id_of (first_where (of_user (some u)) db.subjects);
      role = user.role;
      device_id = row.device_id;
    })
  ]
  | none ↦ elim (first_where (λ d. equals_id row.device_id d.id) db.devices) [
    | none ↦ err internal
    | some d ↦ ok (record {
      user_id = none;
      subject_id = some d.subject_id;
      role = Role.child;
      device_id = row.device_id;
    })
  ]
]

module _ (sha256 : String → String) (refresh_ttl : ℕ) where
  abbrev pub issued : Caller → ℕ → Fresh → ℕ → RefreshToken
  issued me chain new at = record {
    id = new.id;
    user_id = me.user_id;
    device_id = me.device_id;
    token_hash = sha256 new.raw;
    family_chain = chain;
    used_at = none;
    revoked_at = none;
    expires_at = at + refresh_ttl * second;
  }

  -- `_issue_pair`; a text whose hash is in the table already violates its unique index.
  unfoldable pub issue_pair : Caller → Option ℕ → Fresh → ℕ → Exec Db Unit
  issue_pair me chain new at db =
      if exists_where (has_hash (sha256 new.raw)) db.refresh_tokens
      then err internal
      else ok (
        tt,
        record db {
          refresh_tokens = db.refresh_tokens ++ issued me (or_else chain new.chain) new at ∷ [];
        },
      )

  -- POST /auth/refresh, once the row is found
  unfoldable pub refresh_row : RefreshToken → Fresh → ℕ → Exec Db TokenOut
  unfolding spend issue_pair identity
  refresh_row row new at = do
    spend row at
    me ← (λ db. lift (identity row db) db)
    issue_pair me (some row.family_chain) new at
    pure (record { claims = me; refresh_token = new.raw; family_id = none })

  unfoldable pub refresh : String → Fresh → ℕ → Exec Db TokenOut
  unfolding refresh_row
  refresh token new at = do
    row ← (λ db. or_raise (first_where (has_hash (sha256 token)) db.refresh_tokens) unauthorized db)
    refresh_row row new at

  -- POST /auth/logout
  unfoldable pub logout : String → ℕ → Exec Db Unit
  logout token at = modify (λ db. elim (first_where (has_hash (sha256 token)) db.refresh_tokens) [
    | none ↦ db
    | some row ↦ record db {
      refresh_tokens = update_where (in_chain row.family_chain) (revoked at) db.refresh_tokens;
    }
  ])
