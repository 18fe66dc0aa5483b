-- ===== src/Deps.antt =====
-- app/deps.py: who calls, and what they may touch. The claims of a verified token are the argument.
pub mod Access
mod Tests
use brainxp_server.Prelude.{
  Bool, Option, equals_id, false, if◌then◌else◌, is_none, is_some, none, not, some, true, ℕ, ◌&&◌,
  ◌==◌,
}
use brainxp_server.Prelude.Exec.{
  Exec, Result, err, forbidden, lift, not_found, ok, or_raise, pure, raise_if, unauthorized, ◌>>=◌,
  ◌>>◌,
}
use brainxp_server.Prelude.Rows.{exists_where, first_where}
use brainxp_server.Tables.{Db}
use brainxp_server.Tables.People.{FamilyMember, Role, Subject, parent}

pub record Caller : Type 0 where
  pub user_id : Option ℕ
  pub subject_id : Option ℕ
  pub role : Role
  pub device_id : Option ℕ

abbrev pub is_parent : Caller → Bool
is_parent me = elim me.role [ parent ↦ true | _ ↦ false ]

abbrev pub is_child : Caller → Bool
is_child me = elim me.role [ Role.child ↦ true | _ ↦ false ]

-- Python's `a != b` of two optional identifiers.
abbrev pub differs : Option ℕ → Option ℕ → Bool
differs none none = false
differs none (some b) = true
differs (some a) none = true
differs (some a) (some b) = not (a == b)

-- A device that is gone, one that was unbound, and one whose profile was deleted are refused. The
-- profile's row is joined from the outside.
unfoldable pub device_allowed : ℕ → Db → Bool
device_allowed device db = elim (first_where (λ d. d.id == device) db.devices) [
  | none ↦ false
  | some d ↦ is_none d.unbound_at && elim (first_where (λ s. s.id == d.subject_id) db.subjects) [
    | none ↦ true
    | some s ↦ is_none s.deleted_at
  ]
]

unfoldable pub require_bound_device : ℕ → Exec Db Unit
unfolding device_allowed
require_bound_device device db = if device_allowed device db then ok (tt, db) else err unauthorized

-- `caller` behind the token's signature: its device must still be bound.
unfoldable pub caller : Caller → Exec Db Caller
unfolding require_bound_device
caller me db = elim me.device_id [
  | none ↦ ok (me, db)
  | some d ↦ (do require_bound_device d; pure me) db
]

abbrev pub is_parent_member : Option ℕ → ℕ → FamilyMember → Bool
is_parent_member user family m =
    m.family_id == family && equals_id user m.user_id && elim m.role [ parent ↦ true | _ ↦ false ]

-- The query `owns` of `authorize_subject`.
unfoldable pub owns : Caller → Subject → Db → Bool
owns me row db =
    exists_where
      (λ f.
        equals_id row.family_id f.id
        && exists_where (is_parent_member me.user_id f.id) db.family_members)
      db.families

unfoldable pub authorize_row : Caller → ℕ → Subject → Db → Result Subject
unfolding owns
authorize_row me subject row db = if is_some row.deleted_at then err not_found else elim me.role [
  | parent ↦ if owns me row db then ok row else err forbidden
  | _ ↦ if equals_id me.subject_id subject then ok row else err forbidden
]

unfoldable pub authorize_subject : Caller → ℕ → Exec Db Subject
unfolding authorize_row
authorize_subject me subject = do
  row ← (λ db. or_raise (first_where (λ s. s.id == subject) db.subjects) not_found db)
  (λ db. lift (authorize_row me subject row db) db)

unfoldable pub require_policy_writer : Caller → ℕ → Exec Db Subject
unfolding authorize_subject
require_policy_writer me subject = do
  row ← authorize_subject me subject
  raise_if (is_child me) forbidden
  pure row

abbrev pub is_proxy : Caller → Subject → Bool
is_proxy me subject = is_parent me && differs subject.user_id me.user_id
