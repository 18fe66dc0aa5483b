-- ===== src/Families/Codes.antt =====
-- What a pairing code is good for.
use mathlib.Core.Path.{subst}
use brainxp_server.Auth.{Fresh, TokenOut, has_hash, issue_pair, issued}
use brainxp_server.Devices.{
  announce_replacement, burned, conflicting, count_attempt, displace, has_code, max_attempts, tried,
  unbind, unbind_any,
}
use brainxp_server.Families.{
  Drawn, PairIn, attempts_of, bind_device, code_refusal, consumed_code, pair_device, pair_row,
  paired_audit, phone_claims,
}
use brainxp_server.Policies.Handlers.{reply}
use brainxp_server.Prelude.{
  Bool-cases, List, String, [], ap, arith, eq_iff, false, inl, inr, is_some, leb, ltb, none, refl,
  some, sym, true, ℕ, ◌++◌, ◌+◌, ◌<◌, ◌∙◌, ◌∷◌, ◌≡◌, ◌≤◌, ◌⊎◌,
}
use brainxp_server.Prelude.Exec.{AppError, conflict, err, ok}
use brainxp_server.Prelude.Rows.{
  exists_where, first_where, first_where-update_where, first_where_test, map_some, update_where,
}
use brainxp_server.Push.{revoke_devices}
use brainxp_server.Tables.{Db}
use brainxp_server.Tables.People.{Device, PairingCode}

-- The try is among the first five, and the code is neither used nor expired.
abbrev pub CanPair : PairingCode → ℕ → Type 0
CanPair row at =
    (row.attempt_count + 1 ≤ max_attempts) × (row.consumed_at ≡ none) × (at < row.expires_at)

refusal_cases :
    (row : PairingCode) (at : ℕ)
    → (CanPair row at × (code_refusal row (row.attempt_count + 1) at ≡ none))
      ⊎ ((e : AppError) × (code_refusal row (row.attempt_count + 1) at ≡ some e)
          × (¬ CanPair row at))
unfolding code_refusal burned
refusal_cases row at = elim (Bool-cases (ltb max_attempts (row.attempt_count + 1))) [
  | inl b ↦ inr (conflict "code_burned", rw b refl, λ c. ground arith)
  | inr b ↦ elim (Bool-cases (is_some row.consumed_at)) [
    | inl u ↦ inr (conflict "code_used", rw (b, u) refl, λ c. ground arith)
    | inr u ↦ elim (Bool-cases (leb row.expires_at at)) [
      | inl x ↦ inr (conflict "code_expired", rw (b, u, x) refl, λ c. ground arith)
      | inr x ↦ inl ((ground arith, ground arith, ground arith), rw (b, u, x) refl)
    ]
  ]
]

-- Every try of a known code is counted.
counted :
    (code : String) (row : PairingCode) (db : Db)
    → first_where (has_code code) db.pairing_codes ≡ some row
    → first_where (has_code row.code) (count_attempt row.code db).pairing_codes ≡ some (tried row)
unfolding count_attempt
counted code row db found =
    let own =
      (eq_iff row.code code).0 (first_where_test (has_code code) db.pairing_codes row found) in
    first_where-update_where (has_code row.code) tried db.pairing_codes (λ x h. h)
    ∙ ap (map_some tried)
        (subst (λ c. first_where (has_code c) db.pairing_codes ≡ some row) (sym own) found)

unbind_any_codes :
    (rows : List Device) (at : ℕ) (db : Db)
    → (unbind_any rows at db).pairing_codes ≡ db.pairing_codes
unfolding unbind revoke_devices
unbind_any_codes [] at db = refl
unbind_any_codes (d ∷ ds) at db = refl

module _ (sha256 : String → String) (refresh_ttl : ℕ) where
  bind_device_codes :
      (row : PairingCode) (body : PairIn) (drawn : Drawn) (at : ℕ) (db : Db)
      → (bind_device sha256 refresh_ttl row body drawn at db).pairing_codes ≡ db.pairing_codes
  unfolding bind_device displace announce_replacement
  bind_device_codes row body drawn at db =
      unbind_any_codes (conflicting row.subject_id (sha256 body.install_binding) db) at db

  -- The database after a pairing.
  abbrev after_pairing : PairingCode → PairIn → Drawn → Fresh → ℕ → Db → Db
  after_pairing row body drawn new at db =
      let db₁ = bind_device sha256 refresh_ttl row body drawn at db in
      record db₁ {
        pairing_codes = update_where (has_code row.code) (consumed_code at) db₁.pairing_codes;
        refresh_tokens =
            db₁.refresh_tokens
            ++ issued sha256 refresh_ttl (phone_claims sha256 refresh_ttl row drawn) new.chain new
                at
              ∷ [];
        audit_log = db₁.audit_log ++ paired_audit sha256 refresh_ttl row drawn ∷ [];
      }

  -- Take a code that the table knows, within the rate limits, and a new token whose hash the table does
  -- not know. A try among the first five, of a code that is neither used nor expired, is answered with a
  -- session of the code's profile on the new phone, and the code is counted and used up. Every other try
  -- is refused and leaves nothing behind but one more on the code's count.
  pub pair_device_cases :
      (body : PairIn) (drawn : Drawn) (new : Fresh) (at : ℕ) (row : PairingCode) (db : Db)
      → first_where (has_code body.code) db.pairing_codes ≡ some row
      → exists_where
          (has_hash (sha256 new.raw))
          (bind_device sha256 refresh_ttl row body drawn at
            (count_attempt row.code db)).refresh_tokens
        ≡ false
      → let (reply, db') = pair_device sha256 refresh_ttl true true body drawn new at db in
        (CanPair row at
          × (out : TokenOut) × (reply ≡ ok out)
          × (out.claims ≡ phone_claims sha256 refresh_ttl row drawn)
          × (first_where (has_code row.code) db'.pairing_codes
              ≡ some (consumed_code at (tried row))))
        ⊎ ((e : AppError) × (reply ≡ err e)
            × (¬ CanPair row at)
            × (db' ≡ count_attempt row.code db))
  unfolding pair_device pair_row issue_pair
  pair_device_cases body drawn new at row db found fresh =
      let db₁ = count_attempt row.code db in
      let count : attempts_of row.code db₁ ≡ row.attempt_count + 1 =
        rw (counted body.code row db found, attempts_of) refl in
      let there : first_where (has_code row.code)
            (bind_device sha256 refresh_ttl row body drawn at db₁).pairing_codes
          ≡ some (tried row) =
        rw (bind_device_codes row body drawn at db₁) (counted body.code row db found) in
      elim (refusal_cases row at) [
        | inl (can, free) ↦ inl (
          can,
          record {
            claims = phone_claims sha256 refresh_ttl row drawn;
            refresh_token = new.raw;
            family_id = none;
          },
          rw (found, count, free, pair_row, fresh) refl,
          refl,
          rw (found, count, free, pair_row, fresh)
              (first_where-update_where (has_code row.code) (consumed_code at) _ (λ x h. h)
                ∙ ap (map_some (consumed_code at)) there),
        )
        | inr (e, refused, cannot) ↦ inr (
          e,
          rw (found, count, refused, pair_row) refl,
          cannot,
          rw (found, count, refused, pair_row) refl,
        )
      ]
