-- ===== src/Push/Tests.antt =====
-- A push token that changes hands.
use brainxp_server.Prelude.{[], arith, none, some, ◌∷◌, ◌≡◌}
use brainxp_server.Prelude.Exec.{ok}
use brainxp_server.Prelude.Rows.{count_where, first_where}
use brainxp_server.Push.{has_token, new_push_token, remember}
use brainxp_server.Push.Handover.{IsTokenKeyed, remember_lem}
use brainxp_server.Samples.{db_five}
use brainxp_server.Tables.{Db}
use brainxp_server.Tables.People.{PushToken}

abbrev token_row : PushToken
token_row = new_push_token "t" "android" (some 1) none 10

abbrev db_token : Db
db_token = record db_five { push_tokens = token_row ∷ [] }

one_token : IsTokenKeyed db_token.push_tokens
unfolding count_where
one_token token = ground arith

remember_lem_example :
    (db' : Db) × (remember "t" "ios" (some 2) none 20 db_token ≡ ok (tt, db'))
    × (first_where (has_token "t") db'.push_tokens
        ≡ some (new_push_token "t" "ios" (some 2) none 20))
    × IsTokenKeyed db'.push_tokens
remember_lem_example = remember_lem "t" "ios" (some 2) none 20 db_token one_token
