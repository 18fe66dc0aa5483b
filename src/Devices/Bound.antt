-- ===== src/Devices/Bound.antt =====
-- At most one bound phone for every profile and for every installation.
use brainxp_server.Devices.{
  conflicting, device_ids, displace, in_the_way, is_bound, unbind, unbind_any, unbound,
}
use brainxp_server.Ledger.Handlers.{bound_to}
use brainxp_server.Prelude.{
  ==_iff, ==_self, All, Bool, Bool-cases, List, String, [], ap, arith, eq_iff, false, inl, inr,
  refl, some, str_eq, sym, true, ℕ, ◌&&◌, ◌++◌, ◌==◌, ◌∷◌, ◌≡◌, ◌≤◌,
}
use brainxp_server.Prelude.Rows.{
  count_where, count_where-append, count_where-update_where-le, rows_where, update_where,
}
use brainxp_server.Push.{id_in, revoke_devices}
use brainxp_server.Tables.{Db}
use brainxp_server.Tables.People.{Device}

abbrev pub bound_binding : String → Device → Bool
bound_binding binding d = str_eq d.install_binding_hash binding && is_bound d

-- The index devices_binding_idx, and its like for the profiles.
pub record IsPaired (devices : List Device) : Type 0 where
  pub one_phone : (s : ℕ) → count_where (bound_to s) devices ≤ 1
  pub one_profile : (b : String) → count_where (bound_binding b) devices ≤ 1

id_in-cons : (i j : ℕ) (ids : List ℕ) → id_in (some i) ids ≡ true → id_in (some i) (j ∷ ids) ≡ true
unfolding id_in
id_in-cons i j ids h = ground arith

-- The rows that a query yields are in the list of their identifiers.
covered :
    (r : Device → Bool) (xs : List Device) (ids : List ℕ)
    → ((i : ℕ) → id_in (some i) (device_ids (rows_where r xs)) ≡ true → id_in (some i) ids ≡ true)
    → All (λ d. r d ≡ true → id_in (some d.id) ids ≡ true) xs
unfolding rows_where id_in
covered r [] ids h = tt
covered r (d ∷ xs) ids h = elim (Bool-cases (r d)) [
  | inl e ↦ (
    λ _. h d.id (rw (e, ==_self d.id) refl),
    covered r xs ids (λ i k. h i (rw e (id_in-cons i d.id _ k))),
  )
  | inr e ↦ (λ k. absurd (ground arith), covered r xs ids (λ i k. h i (rw e k)))
]

none_left :
    (p q : Device → Bool) (at : ℕ) (xs : List Device)
    → ((d : Device) → p (unbound at d) ≡ false)
    → All (λ d. p d ≡ true → q d ≡ true) xs
    → count_where p (update_where q (unbound at) xs) ≡ 0
unfolding count_where update_where
none_left p q at [] kills h = refl
none_left p q at (d ∷ xs) kills h = elim (Bool-cases (q d)) [
  | inl e ↦ rw (e, kills d) (omega (arith, none_left p q at xs kills h.1))
  | inr e ↦
      let no_p : p d ≡ false = ground (arith, h.0) in
      rw (e, no_p) (omega (arith, none_left p q at xs kills h.1))
]

nothing_to_unbind :
    (at : ℕ) (xs : List Device) → update_where (λ d. id_in (some d.id) []) (unbound at) xs ≡ xs
unfolding update_where id_in
nothing_to_unbind at [] = refl
nothing_to_unbind at (d ∷ xs) = ap (λ ys. d ∷ ys) (nothing_to_unbind at xs)

pub unbind_any_devices :
    (rows : List Device) (at : ℕ) (db : Db)
    → (unbind_any rows at db).devices
      ≡ update_where (λ d. id_in (some d.id) (device_ids rows)) (unbound at) db.devices
unfolding unbind revoke_devices
unbind_any_devices [] at db = sym (nothing_to_unbind at db.devices)
unbind_any_devices (d ∷ ds) at db = refl

still_unbound_profile : (s at : ℕ) (d : Device) → bound_to s (unbound at d) ≡ false
still_unbound_profile s at d = ground arith

still_unbound_binding : (b : String) (at : ℕ) (d : Device) → bound_binding b (unbound at d) ≡ false
still_unbound_binding b at d = ground arith

All-map :
    {P Q : Device → Type 0} (xs : List Device) → ((d : Device) → P d → Q d) → All P xs → All Q xs
All-map [] f h = tt
All-map (d ∷ xs) f h = (f d h.0, All-map xs f h.1)

-- Unbinding keeps the phones apart.
pub unbind_any-IsPaired :
    (rows : List Device) (at : ℕ) (db : Db)
    → IsPaired db.devices
    → IsPaired (unbind_any rows at db).devices
unbind_any-IsPaired rows at db h = rw (unbind_any_devices rows at db) (record {
  one_phone = λ s. omega (
    arith,
    h.one_phone s,
    count_where-update_where-le (bound_to s) (λ d. id_in (some d.id) (device_ids rows)) (unbound at)
        (λ d e. still_unbound_profile s at d) db.devices,
  );
  one_profile = λ b. omega (
    arith,
    h.one_profile b,
    count_where-update_where-le (bound_binding b) (λ d. id_in (some d.id) (device_ids rows))
        (unbound at) (λ d e. still_unbound_binding b at d) db.devices,
  );
})

-- What a query that catches every bound phone of a kind leaves of it.
unbound_all :
    (p r : Device → Bool) (at : ℕ) (db : Db)
    → ((d : Device) → p (unbound at d) ≡ false)
    → ((d : Device) → p d ≡ true → r d ≡ true)
    → count_where p (unbind_any (rows_where r db.devices) at db).devices ≡ 0
unbound_all p r at db kills catches =
    let rows = rows_where r db.devices in
    let q : Device → Bool = λ d. id_in (some d.id) (device_ids rows) in
    rw (unbind_any_devices rows at db) (
      none_left p q at db.devices kills (
        All-map db.devices (λ d k e. k (catches d e))
          (covered r db.devices (device_ids rows) (λ i e. e))))

-- After a displacement neither the profile nor the installation has a bound phone.
pub displace_free :
    (subject : ℕ) (binding : String) (at : ℕ) (db : Db)
    → let db' = (displace subject binding at db).1 in
      (count_where (bound_to subject) db'.devices ≡ 0)
      × (count_where (bound_binding binding) db'.devices ≡ 0)
unfolding displace conflicting
displace_free subject binding at db = (
  unbound_all (bound_to subject) (in_the_way subject binding) at db
      (λ d. still_unbound_profile subject at d) (λ d e. ground arith),
  unbound_all (bound_binding binding) (in_the_way subject binding) at db
      (λ d. still_unbound_binding binding at d) (λ d e. ground arith),
)

pub displace-IsPaired :
    (subject : ℕ) (binding : String) (at : ℕ) (db : Db)
    → IsPaired db.devices
    → IsPaired (displace subject binding at db).1.devices
unfolding displace
displace-IsPaired subject binding at db h =
    unbind_any-IsPaired (conflicting subject binding db) at db h

-- A phone that is added where nothing is bound keeps the phones apart.
pub add-IsPaired :
    (d : Device) (devices : List Device)
    → IsPaired devices
    → count_where (bound_to d.subject_id) devices ≡ 0
    → count_where (bound_binding d.install_binding_hash) devices ≡ 0
    → IsPaired (devices ++ d ∷ [])
unfolding count_where
add-IsPaired d devices h free free' = record {
  one_phone = λ s.
      rw (count_where-append (bound_to s) devices (d ∷ [])) (elim (Bool-cases (d.subject_id == s)) [
        | inl e ↦ let same = (==_iff d.subject_id s).0 e in ground (arith, rw same at free)
        | inr e ↦ ground (arith, h.one_phone s)
      ]);
  one_profile = λ b.
      rw (count_where-append (bound_binding b) devices (d ∷ []))
        (elim (Bool-cases (str_eq d.install_binding_hash b)) [
          | inl e ↦
              let same = (eq_iff d.install_binding_hash b).0 e in ground (arith, rw same at free')
          | inr e ↦ ground (arith, h.one_profile b)
        ]);
}
