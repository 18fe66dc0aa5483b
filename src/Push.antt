-- ===== src/Push.antt =====
-- The token table of app/services/push.py. Sending is the provider's: a parameter of `deliver`.
pub mod Handover
mod Tests
use brainxp_server.Policies.{is_in}
use brainxp_server.Prelude.{
  Bool, List, Option, String, [], equals_id, false, if◌then◌else◌, is_none, map, none, some, str_eq,
  true, ℕ, ◌&&◌, ◌++◌, ◌==◌, ◌||◌, ◌∷◌,
}
use brainxp_server.Prelude.Exec.{Exec, modify}
use brainxp_server.Prelude.Rows.{exists_where, rows_where, update_where}
use brainxp_server.Tables.{Db}
use brainxp_server.Tables.People.{FamilyMember, PushToken, Subject, parent}

abbrev pub has_token : String → PushToken → Bool
has_token token t = str_eq t.token token

abbrev pub handed : String → Option ℕ → Option ℕ → ℕ → PushToken → PushToken
handed platform user device at t = record t {
  user_id = user;
  device_id = device;
  platform = platform;
  last_seen_at = at;
  revoked_at = none;
}

abbrev pub new_push_token : String → String → Option ℕ → Option ℕ → ℕ → PushToken
new_push_token token platform user device at = record {
  token = token;
  user_id = user;
  device_id = device;
  platform = platform;
  last_seen_at = at;
  revoked_at = none;
}

-- The upsert of `remember` on the rows.
unfoldable pub remember_rows :
    String → String → Option ℕ → Option ℕ → ℕ → List PushToken → List PushToken
remember_rows token platform user device at rows =
    if exists_where (has_token token) rows
    then update_where (has_token token) (handed platform user device at) rows
    else rows ++ new_push_token token platform user device at ∷ []

unfoldable pub remember : String → String → Option ℕ → Option ℕ → ℕ → Exec Db Unit
unfolding remember_rows
remember token platform user device at =
    modify
      (λ db. record db { push_tokens = remember_rows token platform user device at db.push_tokens })

-- `owned_by`; the column compared with None is IS NULL.
abbrev pub owned_by : Option ℕ → Option ℕ → PushToken → Bool
owned_by user (some d) t = equals_id t.device_id d
owned_by (some u) none t = equals_id t.user_id u
owned_by none none t = is_none t.user_id

abbrev pub push_revoked : ℕ → PushToken → PushToken
push_revoked at t = record t { revoked_at = some at }

abbrev pub set_push : (PushToken → Bool) → ℕ → Exec Db Unit
set_push p at =
    modify (λ db. record db { push_tokens = update_where p (push_revoked at) db.push_tokens })

unfoldable pub forget_token : String → Option ℕ → Option ℕ → ℕ → Exec Db Unit
forget_token token user device at =
    set_push (λ t. has_token token t && is_none t.revoked_at && owned_by user device t) at

-- `IN` over identifiers, where a null column is in no list.
unfoldable pub id_in : Option ℕ → List ℕ → Bool
id_in i [] = false
id_in i (j ∷ ids) = if equals_id i j then true else id_in i ids

unfoldable pub revoke_devices : List ℕ → ℕ → Exec Db Unit
unfolding id_in
revoke_devices ids at = set_push (λ t. id_in t.device_id ids && is_none t.revoked_at) at

unfoldable pub prune : List String → ℕ → Exec Db Unit
unfolding is_in
prune tokens at = set_push (λ t. is_in t.token tokens && is_none t.revoked_at) at

abbrev pub parent_of : Subject → ℕ → FamilyMember → Bool
parent_of s user m =
    equals_id s.family_id m.family_id
    && m.user_id == user
    && elim m.role [ parent ↦ true | _ ↦ false ]

-- A user that `guardian_users` yields: a parent of the profile's family, or the profile's own.
unfoldable pub is_guardian : ℕ → ℕ → Db → Bool
is_guardian subject user db =
    exists_where
      (λ s.
        s.id == subject
        && (exists_where (parent_of s user) db.family_members || equals_id s.user_id user))
      db.subjects

abbrev pub receives : ℕ → Db → PushToken → Bool
receives subject db t =
    is_none t.revoked_at && elim t.user_id [ none ↦ false | some u ↦ is_guardian subject u db ]

unfoldable pub recipients : ℕ → Db → List String
unfolding is_guardian
recipients subject db = map (λ t. t.token) (rows_where (receives subject db) db.push_tokens)
