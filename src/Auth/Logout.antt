-- ===== src/Auth/Logout.antt =====
-- What `logout` ends.
use brainxp_server.Auth.{Fresh, has_hash, in_chain, logout, refresh, refresh_row, revoked, spend}
use brainxp_server.Prelude.{
  Bool-cases, List, String, [], arith, inl, inr, is_some, refl, some, true, ℕ, ◌∷◌, ◌≡◌,
}
use brainxp_server.Prelude.Exec.{err, outcome, unauthorized}
use brainxp_server.Prelude.Rows.{first_where, update_where}
use brainxp_server.Tables.{Db}
use brainxp_server.Tables.People.{RefreshToken}

module _ (sha256 : String → String) (refresh_ttl : ℕ) where
  ended :
      (chain at : ℕ) (d : String) (rows : List RefreshToken) (t : RefreshToken)
      → first_where (has_hash d) (update_where (in_chain chain) (revoked at) rows) ≡ some t
      → t.family_chain ≡ chain
      → is_some t.revoked_at ≡ true
  unfolding first_where update_where
  ended chain at d [] t found same = cc
  ended chain at d (x ∷ rows) t found same = elim (Bool-cases (has_hash d x)) [
    | inr other ↦ elim (Bool-cases (in_chain chain x)) [
      | inl c ↦ ended chain at d rows t (rw (c, other) at found) same
      | inr c ↦ ended chain at d rows t (rw (c, other) at found) same
    ]
    | inl this ↦ elim (Bool-cases (in_chain chain x)) [
      | inl c ↦ let e : revoked at x ≡ t = cc (rw (c, this) at found) in rw (← e) refl
      | inr c ↦ let e : x ≡ t = cc (rw (c, this) at found) in absurd (ground arith)
    ]
  ]

  -- After a logout with a token that the table knows, every token of its chain is refused, whichever it
  -- is and whenever it comes.
  pub logout-refresh :
      (token other : String) (new : Fresh) (at later : ℕ) (row t : RefreshToken) (db : Db)
      → first_where (has_hash (sha256 token)) db.refresh_tokens ≡ some row
      → let db' = outcome db (logout sha256 refresh_ttl token at db) in
        first_where (has_hash (sha256 other)) db'.refresh_tokens ≡ some t
        → t.family_chain ≡ row.family_chain
        → refresh sha256 refresh_ttl other new later db' ≡ err unauthorized
  unfolding logout refresh refresh_row spend
  logout-refresh token other new at later row t db found found' same =
      let ends : is_some t.revoked_at ≡ true =
        ended row.family_chain at (sha256 other) db.refresh_tokens t (rw found at found') same in
      rw (found, rw found at found', ends) refl
