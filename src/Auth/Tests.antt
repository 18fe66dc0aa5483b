-- ===== src/Auth/Tests.antt =====
-- Sessions at a concrete account.
use brainxp_server.Auth.{
  Fresh, TokenOut, has_hash, identity, is_live, issue_pair, issued, logout, refresh, revoked, used,
}
use brainxp_server.Auth.Accounts.{NewIds, family, login, register}
use brainxp_server.Auth.Accounts.Entry.{register-login, registration}
use brainxp_server.Auth.Logout.{logout-refresh}
use brainxp_server.Auth.Replay.{IsSpendable, refresh_cases, refresh_replay}
use brainxp_server.Auth.Rotation.{IsRotating, Sessions-IsRotating, none_yet, refreshed, started}
use brainxp_server.Deps.{Caller}
use brainxp_server.Prelude.{
  List, String, [], arith, inl, none, refl, some, str_eq, true, ℕ, ◌*◌, ◌∷◌, ◌≡◌, ◌≤◌, ◌⊎◌,
}
use brainxp_server.Prelude.Exec.{err, ok, outcome, unauthorized}
use brainxp_server.Prelude.Rows.{count_where, exists_where, first_where, update_where}
use brainxp_server.Rules.Calendar.{second}
use brainxp_server.Samples.{db_five}
use brainxp_server.Tables.{Db}
use brainxp_server.Tables.People.{RefreshToken, Role, User}

abbrev plain : String → String
plain x = x

abbrev ttl : ℕ
ttl = 3600

abbrev first_token : Fresh
first_token = record { raw = "a"; id = 1; chain = 9 }

abbrev second_token : Fresh
second_token = record { raw = "b"; id = 2; chain = 10 }

abbrev me_five : Caller
me_five = record { user_id = some 1; subject_id = none; role = Role.personal; device_id = none }

abbrev row_one : RefreshToken
row_one = issued plain ttl me_five 9 first_token 1000

abbrev row_used : RefreshToken
row_used = used 2000 row_one

abbrev sari : User
sari = record {
  id = 1;
  email = some "sari@example.id";
  password_hash = some "x";
  role = Role.personal;
  display_name = "Sari";
  deleted_at = none;
}

abbrev with_tokens : List RefreshToken → Db
with_tokens rows = record db_five { users = sari ∷ []; refresh_tokens = rows }

no_tokens : IsRotating db_five
unfolding count_where
no_tokens c = omega arith

Sessions-IsRotating_example :
    let db = outcome db_five (issue_pair plain ttl me_five none first_token 1000 db_five) in
    count_where (is_live 9) (outcome db (refresh plain ttl "a" second_token 2000 db)).refresh_tokens
    ≤ 1
Sessions-IsRotating_example =
    Sessions-IsRotating plain ttl no_tokens
      (refreshed "a" second_token 2000
        (started me_five first_token 1000 none_yet (unfold exists_where in refl)))
      9

abbrev sari_claims : Caller
sari_claims = record {
  user_id = some 1;
  subject_id = some 5;
  role = Role.personal;
  device_id = none;
}

refresh_cases_example :
    let db = with_tokens (row_one ∷ []) in
    (IsSpendable row_one 2000 db
      × (out : TokenOut) × (db' : Db) × (refresh plain ttl "a" second_token 2000 db ≡ ok (out, db'))
      × (out.claims ≡ sari_claims)
      × (first_where (has_hash "b") db'.refresh_tokens
          ≡ some (issued plain ttl sari_claims 9 second_token 2000)))
    ⊎ (¬ IsSpendable row_one 2000 db
        × (refresh plain ttl "a" second_token 2000 db ≡ err unauthorized))
refresh_cases_example =
    refresh_cases plain ttl "a" second_token 2000 row_one sari_claims (with_tokens (row_one ∷ []))
      (unfold first_where in refl) (unfold identity first_where in refl)
      (unfold exists_where in refl)

abbrev much_later : ℕ
much_later = 3000 * second

refresh_replay_example :
    let db = with_tokens (row_used ∷ []) in
    let db' = outcome db (refresh plain ttl "a" second_token much_later db) in
    (refresh plain ttl "a" second_token much_later db ≡ err unauthorized)
    × ((token : String) (new : Fresh) (later : ℕ)
        → refresh plain ttl token new later db' ≡ refresh plain ttl token new later db)
refresh_replay_example =
    refresh_replay plain ttl "a" second_token much_later 2000 row_used (with_tokens (row_used ∷ []))
      (unfold first_where in refl) refl (inl (omega arith))

logout-refresh_example :
    let db = with_tokens (row_one ∷ []) in
    let db' = outcome db (logout plain ttl "a" 1500 db) in
    refresh plain ttl "a" second_token 2000 db' ≡ err unauthorized
logout-refresh_example =
    logout-refresh plain ttl "a" "a" second_token 1500 2000 row_one (revoked 1500 row_one)
      (with_tokens (row_one ∷ [])) (unfold first_where in refl)
      (unfold logout first_where update_where in refl) refl

abbrev ids_nine : NewIds
ids_nine = record { user = 21; family = 22; subject = 23 }

abbrev secret : String
secret = "rahasia"

register-login_example :
    let body = registration "ibu@example.id" secret "Ibu" family in
    (out : TokenOut) × (db' : Db) × (out' : TokenOut) × (db'' : Db) × (register plain ttl plain
        str_eq true body ids_nine first_token 1000 db_five
      ≡ ok (out, db'))
    × (login plain ttl plain str_eq true "ibu@example.id" secret second_token 2000 db'
        ≡ ok (out', db''))
    × (out'.claims ≡ out.claims)
    × (out'.family_id ≡ out.family_id)
register-login_example =
    register-login plain ttl plain str_eq "ibu@example.id" secret "Ibu" family ids_nine first_token
      second_token 1000 2000 db_five refl refl (unfold exists_where in refl)
      (unfold exists_where in refl) (unfold exists_where in refl) (unfold exists_where in refl)
      (unfold exists_where in refl) refl
