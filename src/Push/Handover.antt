-- ===== src/Push/Handover.antt =====
-- Who owns a push token once it is registered.
use text.Mathlib.TextPositions.{eq_refl}
use brainxp_server.Prelude.{
  Bool-cases, List, Option, String, [], arith, eq_iff, false, inl, inr, refl, some, sym, true, ℕ,
  ◌++◌, ◌∙◌, ◌∷◌, ◌≡◌, ◌≤◌,
}
use brainxp_server.Prelude.Exec.{ok}
use brainxp_server.Prelude.Rows.{
  count_where, count_where-append, count_where-exists_where, exists_where, exists_where_found,
  first_where, first_where-append, first_where-exists_where, first_where-update_where,
  first_where_test, update_where,
}
use brainxp_server.Push.{handed, has_token, new_push_token, remember, remember_rows}
use brainxp_server.Tables.{Db}
use brainxp_server.Tables.People.{PushToken}

-- At most one row for every token, as the primary key says.
abbrev pub IsTokenKeyed : List PushToken → Type 0
IsTokenKeyed rows = (token : String) → count_where (has_token token) rows ≤ 1

update_keeps :
    (token other platform : String) (user device : Option ℕ) (at : ℕ) (rows : List PushToken)
    → count_where
        (has_token other)
        (update_where (has_token token) (handed platform user device at) rows)
      ≡ count_where (has_token other) rows
unfolding count_where update_where
update_keeps token other platform user device at [] = refl
update_keeps token other platform user device at (t ∷ rows) =
    ground (arith, update_keeps token other platform user device at rows)

append_keyed :
    (token other : String) (rows : List PushToken) (row : PushToken)
    → exists_where (has_token token) rows ≡ false
    → has_token token row ≡ true
    → count_where (has_token other) rows ≤ 1
    → count_where (has_token other) (rows ++ row ∷ []) ≤ 1
unfolding count_where
append_keyed token other rows row absent own h =
    rw (count_where-append (has_token other) rows (row ∷ []))
      (elim (Bool-cases (has_token other row)) [
        | inl same ↦
            let e : token ≡ other =
              sym ((eq_iff row.token token).0 own) ∙ (eq_iff row.token other).0 same in
            rw (same, ← e, count_where-exists_where (has_token token) rows absent) (omega arith)
        | inr apart ↦ rw apart (omega (arith, h))
      ])

-- Registering a token hands it to the caller, whoever had it: the row that is found is the caller's,
-- for the platform given, and not revoked; and no token has two rows, if none had.
pub remember_lem :
    (token platform : String) (user device : Option ℕ) (at : ℕ) (db : Db)
    → IsTokenKeyed db.push_tokens
    → (db' : Db) × (remember token platform user device at db ≡ ok (tt, db'))
      × (first_where (has_token token) db'.push_tokens
          ≡ some (new_push_token token platform user device at))
      × IsTokenKeyed db'.push_tokens
unfolding remember remember_rows
remember_lem token platform user device at db keyed =
    let rows = db.push_tokens in
    let row = new_push_token token platform user device at in
    elim (Bool-cases (exists_where (has_token token) rows)) [
      | inl e ↦
          let (t, found) = exists_where_found (has_token token) rows e in
          let same : t.token ≡ token =
            (eq_iff t.token token).0 (first_where_test (has_token token) rows t found) in
          (
            record db {
              push_tokens = update_where (has_token token) (handed platform user device at) rows;
            },
            rw e refl,
            rw
                (
                  first_where-update_where (has_token token) (handed platform user device at) rows
                      (λ x h. h),
                  found,
                  same,
                )
                refl,
            λ other. rw (update_keeps token other platform user device at rows) (keyed other),
          )
      | inr e ↦ (
        record db { push_tokens = rows ++ row ∷ [] },
        rw e refl,
        first_where-append (has_token token) rows row
            (first_where-exists_where (has_token token) rows e) (eq_refl token),
        λ other. append_keyed token other rows row e (eq_refl token) (keyed other),
      )
    ]
