-- ===== src/Auth/Rotation.antt =====
-- A chain of refresh tokens never has two that could be spent.
use brainxp_server.Auth.{
  Fresh, chain_moved_on, has_hash, identity, in_chain, is_live, issue_pair, issued, logout, refresh,
  refresh_row, replay_is_recoverable, revoked, spend, used,
}
use brainxp_server.Deps.{Caller}
use brainxp_server.Prelude.{
  ==_iff, ==_self, Bool, Bool-cases, List, Option, Option-cases, String, [], arith, false,
  if◌then◌else◌, inl, inr, is_some, leb, none, or_else, refl, some, true, ℕ, ◌+◌, ◌==◌, ◌||◌, ◌∷◌,
  ◌≡◌, ◌≤◌,
}
use brainxp_server.Prelude.Exec.{lift, outcome, unauthorized}
use brainxp_server.Prelude.Rows.{
  count_where, count_where-append, count_where-update_where-le, count_where-update_where-lt,
  count_where-update_where-zero, exists_where, first_where, update_where,
}
use brainxp_server.Prelude.Triple.{Post, Post-bind, Triple, Triple-read, lift-Post, outcome-Post}
use brainxp_server.Tables.{Db}
use brainxp_server.Tables.People.{RefreshToken}

-- At most one live token for every chain.
abbrev pub IsRotating : Db → Type 0
IsRotating db = (c : ℕ) → count_where (is_live c) db.refresh_tokens ≤ 1

-- The live tokens with room for one more of a chain.
abbrev pub HasRoom : ℕ → Db → Type 0
HasRoom chain db =
    (c : ℕ) → count_where (is_live c) db.refresh_tokens + (if chain == c then 1 else 0) ≤ 1

used_dead : (c at : ℕ) (t : RefreshToken) → is_live c (used at t) ≡ false
used_dead c at t = ground arith

revoked_dead : (c at : ℕ) (t : RefreshToken) → is_live c (revoked at t) ≡ false
revoked_dead c at t = ground arith

module _ (row : RefreshToken) (at : ℕ) (digest : String) where
  used-HasRoom :
      (db : Db)
      → first_where (has_hash digest) db.refresh_tokens ≡ some row
      → row.used_at ≡ none
      → row.revoked_at ≡ none
      → IsRotating db
      → HasRoom row.family_chain (record db {
        refresh_tokens = update_where (λ t. t.id == row.id) (used at) db.refresh_tokens;
      })
  used-HasRoom db found fresh alive h c =
      let q : RefreshToken → Bool = λ t. t.id == row.id in
      let kills : (t : RefreshToken) → (t.id == row.id) ≡ true → is_live c (used at t) ≡ false =
        λ x e. used_dead c at x in
      elim (Bool-cases (row.family_chain == c)) [
        | inl e ↦ rw e (
            omega (
              arith,
              h c,
              count_where-update_where-lt (is_live c) q (used at) (has_hash digest) row kills
                  (ground arith) (==_self row.id) db.refresh_tokens found,
            ))
        | inr e ↦ rw e (
            omega (
              arith,
              h c,
              count_where-update_where-le (is_live c) q (used at) kills db.refresh_tokens,
            ))
      ]

  revoked-HasRoom :
      (db : Db)
      → IsRotating db
      → HasRoom row.family_chain (record db {
        refresh_tokens = update_where (is_live row.family_chain) (revoked at) db.refresh_tokens;
      })
  revoked-HasRoom db h c =
      let q = is_live row.family_chain in
      let kills : (t : RefreshToken)
          → is_live row.family_chain t ≡ true
          → is_live c (revoked at t) ≡ false =
        λ x e. revoked_dead c at x in
      elim (Bool-cases (row.family_chain == c)) [
        | inl e ↦
            let same = (==_iff row.family_chain c).0 e in
            rw e (
              omega (
                arith,
                count_where-update_where-zero (is_live c) q (revoked at) kills
                    (λ x k. rw (← same) k) db.refresh_tokens,
              ))
        | inr e ↦ rw e (
            omega (
              arith,
              h c,
              count_where-update_where-le (is_live c) q (revoked at) kills db.refresh_tokens,
            ))
      ]

  -- Spending a token leaves none live in its chain.
  spend-HasRoom :
      (db : Db)
      → first_where (has_hash digest) db.refresh_tokens ≡ some row
      → IsRotating db
      → Post (λ _. HasRoom row.family_chain) (spend row at db)
  unfolding spend
  spend-HasRoom db found h = elim (Bool-cases (is_some row.revoked_at || leb row.expires_at at)) [
    | inl e ↦ simp e tt
    | inr e ↦ elim (Option-cases row.used_at) [
      | inl new ↦ simp (e, new) (used-HasRoom db found new (ground arith) h)
      | inr (u, old) ↦
          let moved = chain_moved_on row.family_chain u db.refresh_tokens in
          elim (Bool-cases (replay_is_recoverable u moved at)) [
            | inl again ↦ simp (e, old, again) (revoked-HasRoom db h)
            | inr theft ↦ simp (e, old, theft) tt
          ]
    ]
  ]

unheard_count :
    (c : ℕ) (rows : List RefreshToken)
    → exists_where (in_chain c) rows ≡ false
    → count_where (is_live c) rows ≡ 0
unfolding exists_where count_where
unheard_count c [] h = refl
unheard_count c (t ∷ rows) h = ground (arith, unheard_count c rows)

module _ (sha256 : String → String) (refresh_ttl : ℕ) where
  issue_pair-IsRotating :
      (me : Caller) (chain : Option ℕ) (new : Fresh) (at : ℕ) (db : Db)
      → HasRoom (or_else chain new.chain) db
      → Post (λ _. IsRotating) (issue_pair sha256 refresh_ttl me chain new at db)
  unfolding issue_pair count_where
  issue_pair-IsRotating me chain new at db h =
      elim (Bool-cases (exists_where (has_hash (sha256 new.raw)) db.refresh_tokens)) [
        | inl e ↦ rw e tt
        | inr e ↦ rw e (λ c.
            let row = issued sha256 refresh_ttl me (or_else chain new.chain) new at in
            rw (count_where-append (is_live c) db.refresh_tokens (row ∷ [])) (ground (arith, h c)))
      ]

  refresh-IsRotating :
      (token : String) (new : Fresh) (at : ℕ)
      → Triple IsRotating (refresh sha256 refresh_ttl token new at) (λ _. IsRotating)
  unfolding refresh refresh_row
  refresh-IsRotating token new at =
      Triple-read IsRotating (λ db. first_where (has_hash (sha256 token)) db.refresh_tokens)
        unauthorized _ _
        (λ row db found h.
          Post-bind (spend row at) _ db (λ _. HasRoom row.family_chain) (λ _. IsRotating)
            (spend-HasRoom row at (sha256 token) db found h)
            (λ _ s room.
              Post-bind (lift (identity row s)) _ s (λ _ s'. HasRoom row.family_chain s')
                (λ _. IsRotating) (lift-Post (identity row s) s (HasRoom row.family_chain) room)
                (λ me s' room'.
                  Post-bind (issue_pair sha256 refresh_ttl me (some row.family_chain) new at) _ s'
                    (λ _. IsRotating) (λ _. IsRotating)
                    (issue_pair-IsRotating me (some row.family_chain) new at s' room')
                    (λ _ s'' q. q))))

  logout-IsRotating :
      (token : String) (at : ℕ)
      → Triple IsRotating (logout sha256 refresh_ttl token at) (λ _. IsRotating)
  unfolding logout
  logout-IsRotating token at db h =
      elim (Option-cases (first_where (has_hash (sha256 token)) db.refresh_tokens)) [
        | inl e ↦ rw e h
        | inr (row, e) ↦ rw e (λ c. omega (
          arith,
          h c,
          count_where-update_where-le (is_live c) (in_chain row.family_chain) (revoked at)
              (λ x k. revoked_dead c at x) db.refresh_tokens,
        ))
      ]

  start-IsRotating :
      (me : Caller) (new : Fresh) (at : ℕ) (db : Db)
      → exists_where (in_chain new.chain) db.refresh_tokens ≡ false
      → IsRotating db
      → Post (λ _. IsRotating) (issue_pair sha256 refresh_ttl me none new at db)
  start-IsRotating me new at db unheard h = issue_pair-IsRotating me none new at db (λ c.
      elim (Bool-cases (new.chain == c)) [
        | inl e ↦ rw e (
            omega
              (arith, unheard_count c db.refresh_tokens (rw ((==_iff new.chain c).0 e) at unheard)))
        | inr e ↦ rw e (omega (arith, h c))
      ])

  -- What the sessions do to the tokens: one starts, on a chain that is not in the table yet, one goes
  -- on with a token, one ends.
  pub data Sessions (db : Db) : Db → Type 0 where
    none_yet : Sessions db db
    started :
        {db' : Db} (me : Caller) (new : Fresh) (at : ℕ)
        → Sessions db db'
        → exists_where (in_chain new.chain) db'.refresh_tokens ≡ false
        → Sessions db (outcome db' (issue_pair sha256 refresh_ttl me none new at db'))
    refreshed :
        {db' : Db} (token : String) (new : Fresh) (at : ℕ)
        → Sessions db db'
        → Sessions db (outcome db' (refresh sha256 refresh_ttl token new at db'))
    ended :
        {db' : Db} (token : String) (at : ℕ)
        → Sessions db db'
        → Sessions db (outcome db' (logout sha256 refresh_ttl token at db'))

  -- However sessions start, go on and end, refused and replayed tokens included, no chain ever has two
  -- tokens that are neither used nor revoked.
  pub Sessions-IsRotating :
      {db db' : Db}
      → IsRotating db
      → Sessions db db'
      → (c : ℕ) → count_where (is_live c) db'.refresh_tokens ≤ 1
  Sessions-IsRotating h none_yet = h
  Sessions-IsRotating h (started {db' = d} me new at before unheard) =
      let k = Sessions-IsRotating h before in
      outcome-Post d _ IsRotating k (start-IsRotating me new at d unheard k)
  Sessions-IsRotating h (refreshed {db' = d} token new at before) =
      let k = Sessions-IsRotating h before in
      outcome-Post d _ IsRotating k (refresh-IsRotating token new at d k)
  Sessions-IsRotating h (ended {db' = d} token at before) =
      let k = Sessions-IsRotating h before in
      outcome-Post d _ IsRotating k (logout-IsRotating token at d k)
