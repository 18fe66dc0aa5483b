-- ===== src/Deps/Access.antt =====
-- What `authorize_subject` lets through.
use brainxp_server.Deps.{Caller, authorize_row, authorize_subject, owns}
use brainxp_server.Prelude.{
  Bool, Option-cases, arith, equals_id, false, if◌then◌else◌, inl, inr, none, refl, some, true, ℕ,
  ◌==◌, ◌∙◌, ◌≡◌, ◌≢◌, ◌⊎◌,
}
use brainxp_server.Prelude.Exec.{err, forbidden, lift, not_found, ok}
use brainxp_server.Prelude.Rows.{first_where}
use brainxp_server.Prelude.Triple.{Post, Post-map, Triple, Triple-read}
use brainxp_server.Tables.{Db}
use brainxp_server.Tables.People.{Role, Subject, parent, personal}

-- The caller's own profile for a child or a personal account, and for a parent one of the family.
abbrev pub Allowed : Caller → ℕ → Subject → Db → Type 0
Allowed me subject row db =
    ((me.role ≢ parent) × (me.subject_id ≡ some subject))
    ⊎ ((me.role ≡ parent) × (owns me row db ≡ true))

-- A profile that is there and not deleted, and that the caller may touch.
pub record MayTouch (me : Caller) (subject : ℕ) (row : Subject) (db : Db) : Type 0 where
  pub found : first_where (λ s. s.id == subject) db.subjects ≡ some row
  pub alive : row.deleted_at ≡ none
  pub allowed : Allowed me subject row db

abbrev Passed : Caller → ℕ → Subject → Db → Subject → Db → Type 0
Passed me subject row db r db' =
    (r ≡ row) × (db' ≡ db) × (row.deleted_at ≡ none) × Allowed me subject row db

module _ (me : Caller) (subject : ℕ) (row : Subject) (db : Db) where
  own_row :
      me.role ≢ parent
      → row.deleted_at ≡ none
      → (own : Bool) → equals_id me.subject_id subject ≡ own
      → Post (Passed me subject row db) (lift (if own then ok row else err forbidden) db)
  own_row r e true z = (refl, refl, e, inl (r, ground arith))
  own_row r e false z = tt

  family_row :
      me.role ≡ parent
      → row.deleted_at ≡ none
      → (owned : Bool) → owns me row db ≡ owned
      → Post (Passed me subject row db) (lift (if owned then ok row else err forbidden) db)
  family_row r e true z = (refl, refl, e, inr (r, z))
  family_row r e false z = tt

  live_row :
      (role : Role)
      → me.role ≡ role
      → row.deleted_at ≡ none
      → Post (Passed me subject row db) (
          lift
            (elim role [
              | parent ↦ if owns me row db then ok row else err forbidden
              | _ ↦ if equals_id me.subject_id subject then ok row else err forbidden
            ])
            db)
  live_row parent r e = family_row r e (owns me row db) refl
  live_row Role.child r e = own_row (λ w. cc) e (equals_id me.subject_id subject) refl
  live_row personal r e = own_row (λ w. cc) e (equals_id me.subject_id subject) refl

  row_passes : Post (Passed me subject row db) (lift (authorize_row me subject row db) db)
  unfolding authorize_row
  row_passes = elim (Option-cases row.deleted_at) [
    | inl e ↦ simp e (live_row me.role refl e)
    | inr (d, e) ↦ simp e tt
  ]

  passes_row :
      row.deleted_at ≡ none → Allowed me subject row db → authorize_row me subject row db ≡ ok row
  unfolding authorize_row
  passes_row e (inl (r, own)) = ground arith
  passes_row e (inr (r, owned)) = ground arith

-- A caller gets through to a profile exactly when the profile is there and not deleted, and is the
-- caller's own for a child or a personal account, or in a family that the caller is a parent of; the
-- database is left as it is.
pub authorize_subject_iff :
    (me : Caller) (subject : ℕ) (db : Db)
    → Post (λ row db'. (db' ≡ db) × MayTouch me subject row db) (authorize_subject me subject db)
      × ((row : Subject)
          → MayTouch me subject row db
          → authorize_subject me subject db ≡ ok (row, db))
unfolding authorize_subject
authorize_subject_iff me subject db = (
  Triple-read (λ s. s ≡ db) (λ s. first_where (λ r. r.id == subject) s.subjects) not_found _
      (λ row db'. (db' ≡ db) × MayTouch me subject row db)
      (λ row s found same.
        Post-map (Passed me subject row s) _ (lift (authorize_row me subject row s) s)
          (λ r db' p.
            (p.1 ∙ same, rw (p.0, ← same) (record { found = found; alive = p.2; allowed = p.3 })))
          (row_passes me subject row s))
      db refl,
  λ row m. rw (m.found, passes_row me subject row db m.alive m.allowed) refl,
)

-- It keeps whatever holds of the database.
pub authorize_keeps :
    (P : Db → Type 0) (me : Caller) (subject : ℕ) → Triple P (authorize_subject me subject) (λ _. P)
authorize_keeps P me subject db h =
    Post-map _ _ (authorize_subject me subject db) (λ row db' p. rw p.0 h)
      (authorize_subject_iff me subject db).0
