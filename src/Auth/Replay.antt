-- ===== src/Auth/Replay.antt =====
-- Which refresh tokens `refresh` accepts, and what a replay leaves.
use text.Mathlib.TextPositions.{eq_refl}
use brainxp_server.Auth.{
  Fresh, TokenOut, chain_moved_on, has_hash, identity, is_live, issue_pair, issued, refresh,
  refresh_row, replay_grace, replay_is_recoverable, revoked, spend, used,
}
use brainxp_server.Deps.{Caller}
use brainxp_server.Prelude.{
  Bool-cases, List, Option, Option-cases, String, [], arith, false, inl, inr, is_some, leb, none,
  not, or_else, refl, some, true, ℕ, ◌&&◌, ◌++◌, ◌+◌, ◌<◌, ◌==◌, ◌||◌, ◌∙◌, ◌∷◌, ◌≡◌, ◌≤◌, ◌⊎◌,
}
use brainxp_server.Prelude.Exec.{err, ok, outcome, unauthorized}
use brainxp_server.Prelude.Rows.{
  exists_where, exists_where-update_where, first_where, first_where-append,
  first_where-exists_where, update_where,
}
use brainxp_server.Tables.{Db}
use brainxp_server.Tables.People.{RefreshToken}

-- The token was not used, or its reply may have been lost.
abbrev pub IsSpendable : RefreshToken → ℕ → Db → Type 0
IsSpendable row at db =
    (row.revoked_at ≡ none)
    × (at < row.expires_at)
    × ((row.used_at ≡ none)
        ⊎ ((u : ℕ) × (row.used_at ≡ some u)
            × (at ≤ u + replay_grace)
            × (chain_moved_on row.family_chain u db.refresh_tokens ≡ false)))

-- The token is spent, and the hashes in the table stay; or it is refused.
abbrev Spent : RefreshToken → ℕ → Db → Type 0
Spent row at db =
    (IsSpendable row at db
      × (rows : List RefreshToken) × (spend row at db
          ≡ ok (tt, record db { refresh_tokens = rows }))
      × ((d : String)
          → exists_where (has_hash d) rows ≡ exists_where (has_hash d) db.refresh_tokens))
    ⊎ (¬ IsSpendable row at db × (spend row at db ≡ err unauthorized))

spend_cases : (row : RefreshToken) (at : ℕ) (db : Db) → Spent row at db
unfolding spend replay_is_recoverable
spend_cases row at db = elim (Bool-cases (is_some row.revoked_at || leb row.expires_at at)) [
  | inl e ↦ inr (λ s. ground arith, simp e refl)
  | inr e ↦ elim (Option-cases row.used_at) [
    | inl new ↦ inl (
      (ground arith, ground arith, inl new),
      update_where (λ t. t.id == row.id) (used at) db.refresh_tokens,
      simp (e, new) refl,
      λ d. exists_where-update_where (has_hash d) _ (used at) (λ t. refl) db.refresh_tokens,
    )
    | inr (u, old) ↦
        let moved = chain_moved_on row.family_chain u db.refresh_tokens in
        elim (Bool-cases (not moved && leb at (u + replay_grace))) [
          | inl again ↦ inl (
            (ground arith, ground arith, inr (u, old, ground arith, ground arith)),
            update_where (is_live row.family_chain) (revoked at) db.refresh_tokens,
            simp (e, old, again) refl,
            λ d.
                exists_where-update_where (has_hash d) _ (revoked at) (λ t. refl) db.refresh_tokens,
          )
          | inr theft ↦ inr (
            λ s. elim s.2 [
              | inl new ↦ cc (new, old)
              | inr (u', old', soon, still) ↦
                  let same : u' ≡ u = cc (old, old') in
                  let still' = rw same at still in let soon' = rw same at soon in ground arith
            ],
            simp (e, old, theft) refl,
          )
        ]
  ]
]

not_IsSpendable :
    (row : RefreshToken) (at u : ℕ) (db : Db)
    → row.used_at ≡ some u
    → (u + replay_grace < at) ⊎ (chain_moved_on row.family_chain u db.refresh_tokens ≡ true)
    → ¬ IsSpendable row at db
not_IsSpendable row at u db old bad s = elim s.2 [
  | inl new ↦ cc (new, old)
  | inr (u', old', soon, still) ↦
      let same : u' ≡ u = cc (old, old') in
      let still' = rw same at still in let soon' = rw same at soon in ground arith
]

identity_same :
    (row : RefreshToken) (db : Db) (rows : List RefreshToken)
    → identity row (record db { refresh_tokens = rows }) ≡ identity row db
unfolding identity
identity_same row db rows = refl

module _ (sha256 : String → String) (refresh_ttl : ℕ) where
  issue_pair-ok :
      (me : Caller) (chain : Option ℕ) (new : Fresh) (at : ℕ) (db : Db)
      → exists_where (has_hash (sha256 new.raw)) db.refresh_tokens ≡ false
      → issue_pair sha256 refresh_ttl me chain new at db
        ≡ ok (
          tt,
          record db {
            refresh_tokens =
                db.refresh_tokens
                ++ issued sha256 refresh_ttl me (or_else chain new.chain) new at ∷ [];
          },
        )
  unfolding issue_pair
  issue_pair-ok me chain new at db h = rw h refl

  -- Take a token that the table knows, whose session's account or device is there, and a new text whose
  -- hash the table does not know. Presenting the token is answered with the new one exactly when it is
  -- not revoked, has not expired, and was either never used, or used at most half a minute ago with no
  -- token of its chain used since; in every other case it is refused as unauthorized.
  pub refresh_cases :
      (token : String) (new : Fresh) (at : ℕ) (row : RefreshToken) (me : Caller) (db : Db)
      → first_where (has_hash (sha256 token)) db.refresh_tokens ≡ some row
      → identity row db ≡ ok me
      → exists_where (has_hash (sha256 new.raw)) db.refresh_tokens ≡ false
      → (IsSpendable row at db
          × (out : TokenOut) × (db' : Db) × (refresh sha256 refresh_ttl token new at db
              ≡ ok (out, db'))
          × (out.claims ≡ me)
          × (first_where (has_hash (sha256 new.raw)) db'.refresh_tokens
              ≡ some (issued sha256 refresh_ttl me row.family_chain new at)))
        ⊎ (¬ IsSpendable row at db
            × (refresh sha256 refresh_ttl token new at db ≡ err unauthorized))
  unfolding refresh refresh_row
  refresh_cases token new at row me db found who unheard = elim (spend_cases row at db) [
    | inl (spendable, rows, spent, same) ↦
        let db₁ = record db { refresh_tokens = rows } in
        let free = same (sha256 new.raw) ∙ unheard in
        inl (
          spendable,
          record { claims = me; refresh_token = new.raw; family_id = none },
          record db₁ {
            refresh_tokens = rows ++ issued sha256 refresh_ttl me row.family_chain new at ∷ [];
          },
          rw
              (
                found,
                spent,
                identity_same row db rows,
                who,
                issue_pair-ok me (some row.family_chain) new at db₁ free,
              )
              refl,
          refl,
          first_where-append (has_hash (sha256 new.raw)) rows
              (issued sha256 refresh_ttl me row.family_chain new at)
              (first_where-exists_where (has_hash (sha256 new.raw)) rows free)
              (eq_refl (sha256 new.raw)),
        )
    | inr (bad, refused) ↦ inr (bad, rw (found, refused) refl)
  ]

  -- A used token that comes back too late, or after a token of its chain was used, is refused, and the
  -- refusal takes the revocation of the chain back with the rest of the transaction: the database is as
  -- it was, so that every token, those of the chain included, is answered as before.
  pub refresh_replay :
      (stolen : String) (first_new : Fresh) (at u : ℕ) (row : RefreshToken) (db : Db)
      → first_where (has_hash (sha256 stolen)) db.refresh_tokens ≡ some row
      → row.used_at ≡ some u
      → (u + replay_grace < at) ⊎ (chain_moved_on row.family_chain u db.refresh_tokens ≡ true)
      → let db' = outcome db (refresh sha256 refresh_ttl stolen first_new at db) in
        (refresh sha256 refresh_ttl stolen first_new at db ≡ err unauthorized)
        × ((token : String) (new : Fresh) (later : ℕ)
            → refresh sha256 refresh_ttl token new later db'
              ≡ refresh sha256 refresh_ttl token new later db)
  unfolding refresh refresh_row
  refresh_replay stolen first_new at u row db found old bad = elim (spend_cases row at db) [
    | inl s ↦ absurd (not_IsSpendable row at u db old bad s.0)
    | inr (no_spend, refused) ↦
        let gone : refresh sha256 refresh_ttl stolen first_new at db ≡ err unauthorized =
          rw (found, refused) refl in
        (gone, λ token new later. rw gone refl)
  ]
