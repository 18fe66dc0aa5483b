-- ===== src/Families/Household.antt =====
-- The phones of a household, over any sequence of pairings, releases and removals.
use brainxp_server.Auth.{Fresh, TokenOut, has_hash, issue_pair}
use brainxp_server.Deps.{Caller, authorize_subject, is_parent}
use brainxp_server.Deps.Access.{authorize_subject_iff}
use brainxp_server.Devices.{announce_replacement, count_attempt, displace, has_code, release}
use brainxp_server.Devices.Bound.{
  IsPaired, add-IsPaired, displace-IsPaired, displace_free, unbind_any-IsPaired,
}
use brainxp_server.Families.{
  Drawn, PairIn, attempts_of, bind_device, code_refusal, pair_device, pair_row, paired_device,
  release_device, remove_profile, remove_subject, replied,
}
use brainxp_server.Ledger.Handlers.{bound_to}
use brainxp_server.Prelude.{Bool, Bool-cases, Option-cases, String, inl, inr, not, ℕ, ◌&&◌, ◌==◌}
use brainxp_server.Prelude.Exec.{Exec, Result, err, forbidden, ok, outcome, raise_if, ◌>>=◌, ◌>>◌}
use brainxp_server.Prelude.Rows.{exists_where, first_where, rows_where}
use brainxp_server.Prelude.Triple.{
  Post, Post-map, Triple, Triple-bind, outcome-Post, raise_if-keeps,
}
use brainxp_server.Tables.{Db}
use brainxp_server.Tables.People.{PairingCode, Subject}

module _ (sha256 : String → String) (refresh_ttl : ℕ) where
  bind_device-IsPaired :
      (row : PairingCode) (body : PairIn) (drawn : Drawn) (at : ℕ) (db : Db)
      → IsPaired db.devices
      → IsPaired (bind_device sha256 refresh_ttl row body drawn at db).devices
  unfolding bind_device announce_replacement
  bind_device-IsPaired row body drawn at db h =
      let b = sha256 body.install_binding in
      let free = displace_free row.subject_id b at db in
      add-IsPaired (paired_device sha256 refresh_ttl row body drawn at)
        (displace row.subject_id b at db).1.devices (displace-IsPaired row.subject_id b at db h)
        free.0 free.1

  pair_row-IsPaired :
      (row : PairingCode) (attempts : ℕ) (body : PairIn) (drawn : Drawn) (new : Fresh) (at : ℕ)
      → Triple
          (λ db. IsPaired db.devices)
          (pair_row sha256 refresh_ttl row attempts body drawn new at)
          (λ _ db. IsPaired db.devices)
  unfolding pair_row issue_pair
  pair_row-IsPaired row attempts body drawn new at db h =
      elim (Option-cases (code_refusal row attempts at)) [
        | inr (e, refused) ↦ rw (refused, pair_row) tt
        | inl free ↦
            elim (Bool-cases (
              exists_where (has_hash (sha256 new.raw))
                (bind_device sha256 refresh_ttl row body drawn at db).refresh_tokens)) [
                  | inl clash ↦ rw (free, pair_row, clash) tt
                  | inr fresh ↦
                      rw (free, pair_row, fresh) (bind_device-IsPaired row body drawn at db h)
                ]
      ]

  replied-IsPaired :
      (r : Result (TokenOut × Db)) (db : Db)
      → IsPaired db.devices
      → Post (λ _ db'. IsPaired db'.devices) r
      → IsPaired (replied sha256 refresh_ttl db r).1.devices
  replied-IsPaired (ok (a, db')) db h q = q
  replied-IsPaired (err e) db h q = h

  pair_device-IsPaired :
      (within_ip within_all : Bool) (body : PairIn) (drawn : Drawn) (new : Fresh) (at : ℕ) (db : Db)
      → IsPaired db.devices
      → IsPaired
          (pair_device sha256 refresh_ttl within_ip within_all body drawn new at db).1.devices
  unfolding pair_device count_attempt
  pair_device-IsPaired within_ip within_all body drawn new at db h =
      elim (Bool-cases (not (within_ip && within_all))) [
        | inl e ↦ rw e h
        | inr e ↦ elim (Option-cases (first_where (has_code body.code) db.pairing_codes)) [
          | inl q ↦ rw (e, q) h
          | inr (row, q) ↦
              let db₁ = count_attempt row.code db in
              let attempts = attempts_of row.code db₁ in
              rw (e, q)
                (replied-IsPaired (pair_row sha256 refresh_ttl row attempts body drawn new at db₁)
                  db₁ h (pair_row-IsPaired row attempts body drawn new at db₁ h))
        ]
      ]

release-IsPaired :
    (subject at : ℕ) (db : Db) → IsPaired db.devices → IsPaired (release subject at db).1.devices
unfolding release
release-IsPaired subject at db h =
    unbind_any-IsPaired (rows_where (bound_to subject) db.devices) at db h

authorized-IsPaired :
    (me : Caller) (subject : ℕ)
    → Triple
        (λ db. IsPaired db.devices)
        (authorize_subject me subject)
        (λ _ db. IsPaired db.devices)
authorized-IsPaired me subject db h =
    Post-map _ _ (authorize_subject me subject db) (λ row db' p. rw p.0 h)
      (authorize_subject_iff me subject db).0

-- The start that both endpoints share.
parents_only :
    (me : Caller) (subject : ℕ) (f : Subject → Exec Db Unit)
    → ((s : Subject) → Triple (λ db. IsPaired db.devices) (f s) (λ _ db. IsPaired db.devices))
    → Triple
        (λ db. IsPaired db.devices)
        (raise_if (not (is_parent me)) forbidden >> (authorize_subject me subject >>= f))
        (λ _ db. IsPaired db.devices)
parents_only me subject f h =
    let P : Db → Type 0 = λ db. IsPaired db.devices in
    Triple-bind P (raise_if (not (is_parent me)) forbidden) _ (λ _. P) (λ _. P)
      (raise_if-keeps P (not (is_parent me)) forbidden)
      (λ _.
        Triple-bind P (authorize_subject me subject) f (λ _. P) (λ _. P)
          (authorized-IsPaired me subject) h)

remove_subject-IsPaired :
    (me : Caller) (subject at : ℕ)
    → Triple
        (λ db. IsPaired db.devices)
        (remove_subject me subject at)
        (λ _ db. IsPaired db.devices)
unfolding remove_subject remove_profile
remove_subject-IsPaired me subject at =
    parents_only me subject _ (λ s db h. release-IsPaired subject at _ h)

release_device-IsPaired :
    (me : Caller) (subject at : ℕ)
    → Triple
        (λ db. IsPaired db.devices)
        (release_device me subject at)
        (λ _ db. IsPaired db.devices)
unfolding release_device
release_device-IsPaired me subject at = parents_only me subject _ (λ s db h.
    elim (Bool-cases ((release subject at db).0 == 0)) [
      | inl e ↦ rw e tt
      | inr e ↦ rw e (release-IsPaired subject at db h)
    ])

module _ (sha256 : String → String) (refresh_ttl : ℕ) where
  -- What happens to a household's phones: one is paired, one is released, a profile is removed.
  pub data Housekept (db : Db) : Db → Type 0 where
    nothing_done : Housekept db db
    tried_code :
        {db' : Db} (within_ip within_all : Bool) (body : PairIn) (drawn : Drawn) (new : Fresh)
        (at : ℕ)
        → Housekept db db'
        → Housekept db (pair_device sha256 refresh_ttl within_ip within_all body drawn new at db').1
    let_go :
        {db' : Db} (me : Caller) (subject at : ℕ)
        → Housekept db db'
        → Housekept db (outcome db' (release_device me subject at db'))
    taken_off :
        {db' : Db} (me : Caller) (subject at : ℕ)
        → Housekept db db'
        → Housekept db (outcome db' (remove_subject me subject at db'))

  -- Whatever codes are tried, phones released and profiles removed, in any order and by anyone, no
  -- profile has two bound phones and no installation is bound to two profiles.
  pub Housekept-IsPaired :
      {db db' : Db} → IsPaired db.devices → Housekept db db' → IsPaired db'.devices
  Housekept-IsPaired h nothing_done = h
  Housekept-IsPaired h (tried_code {db' = d} within_ip within_all body drawn new at before) =
      pair_device-IsPaired sha256 refresh_ttl within_ip within_all body drawn new at d
        (Housekept-IsPaired h before)
  Housekept-IsPaired h (let_go {db' = d} me subject at before) =
      let k = Housekept-IsPaired h before in
      outcome-Post d (release_device me subject at d) (λ db. IsPaired db.devices) k
        (release_device-IsPaired me subject at d k)
  Housekept-IsPaired h (taken_off {db' = d} me subject at before) =
      let k = Housekept-IsPaired h before in
      outcome-Post d (remove_subject me subject at d) (λ db. IsPaired db.devices) k
        (remove_subject-IsPaired me subject at d k)
