-- ===== src/Progress/Badges.antt =====
-- The badges that a session awards.
use text.Mathlib.TextPositions.{eq_refl}
use brainxp_server.Prelude.{
  ==_self, All, Bool, Bool-cases, List, String, [], arith, eq_iff, false, inl, inr, not, refl, true,
  ℕ, ◌&&◌, ◌++◌, ◌∷◌, ◌≡◌, ◌≤◌,
}
use brainxp_server.Prelude.Rows.{
  count_where, count_where-append, count_where-exists_where, exists_where, exists_where-append,
}
use brainxp_server.Progress.{Badge, award, award_one, has_badge, rules}
use brainxp_server.Tables.Activity.{Achievement, Progress}

-- Every badge of the list is awarded to the profile in the table.
abbrev pub Owned : ℕ → List Achievement → List Badge → Type 0
Owned subject table bs = All (λ b. exists_where (has_badge subject b.code) table ≡ true) bs

-- Every badge of the list passed its rule and was not owned.
abbrev pub Earned : ℕ → Progress → List Achievement → List Badge → Type 0
Earned subject snapshot before bs =
    All
      (λ b.
        (exists_where (has_badge subject b.code) before ≡ false) × (rules b.code snapshot ≡ true))
      bs

-- At most one row for every profile and badge, as the primary key says.
abbrev pub IsKeyed : List Achievement → Type 0
IsKeyed table = (subject : ℕ) (code : String) → count_where (has_badge subject code) table ≤ 1

module _ (subject : ℕ) (snapshot : Progress) (before : List Achievement) where
  one_earned :
      (b : Badge) (table : List Achievement)
      → (award_one subject snapshot before b table).0 ≡ true
      → (exists_where (has_badge subject b.code) before ≡ false) × (rules b.code snapshot ≡ true)
  unfolding award_one
  one_earned b table h = (ground arith, ground arith)

  one_owned :
      (b : Badge) (table : List Achievement)
      → (award_one subject snapshot before b table).0 ≡ true
      → exists_where (has_badge subject b.code) (award_one subject snapshot before b table).1 ≡ true
  unfolding award_one
  one_owned b table h =
      let q = has_badge subject b.code in
      let row : Achievement = record { subject_id = subject; badge_code = b.code } in
      let at_end : exists_where q (row ∷ []) ≡ true =
        unfold exists_where in rw (==_self subject, eq_refl b.code) refl in
      ground (arith, exists_where-append q table (row ∷ []), at_end)

  one_keeps :
      (b : Badge) (table : List Achievement) (q : Achievement → Bool)
      → exists_where q table ≡ true
      → exists_where q (award_one subject snapshot before b table).1 ≡ true
  unfolding award_one
  one_keeps b table q h = ground (
    arith,
    exists_where-append q table (record { subject_id = subject; badge_code = b.code } ∷ []),
  )

  -- A row for a key that the table lacks leaves at most one for each key.
  IsKeyed-append :
      (b : Badge) (table : List Achievement)
      → IsKeyed table
      → exists_where (has_badge subject b.code) table ≡ false
      → IsKeyed (table ++ record { subject_id = subject; badge_code = b.code } ∷ [])
  unfolding count_where
  IsKeyed-append b table h absent s code =
      let row : Achievement = record { subject_id = subject; badge_code = b.code } in
      let q = has_badge s code in
      rw (count_where-append q table (row ∷ [])) (elim (Bool-cases (q row)) [
        | inl same ↦
            let es : subject ≡ s = ground arith in
            let ec : b.code ≡ code = (eq_iff b.code code).0 (ground arith) in
            rw (same, ← es, ← ec, count_where-exists_where (has_badge subject b.code) table absent)
              (omega arith)
        | inr other ↦ rw other (omega (arith, h s code))
      ])

  award_one-IsKeyed :
      (b : Badge) (table : List Achievement)
      → IsKeyed table
      → IsKeyed (award_one subject snapshot before b table).1
  unfolding award_one
  award_one-IsKeyed b table h =
      let add =
        not (exists_where (has_badge subject b.code) before)
        && rules b.code snapshot
        && not (exists_where (has_badge subject b.code) table) in
      elim (Bool-cases add) [
        | inl e ↦ rw e (IsKeyed-append b table h (ground arith))
        | inr e ↦ rw e h
      ]

  pub award-Earned :
      (bs : List Badge) (table : List Achievement)
      → Earned subject snapshot before (award subject snapshot before bs table).0
  unfolding award
  award-Earned [] table = tt
  award-Earned (b ∷ bs) table =
      let (grants, table') = award_one subject snapshot before b table in
      elim (Bool-cases grants) [
        | inl h ↦ rw h (one_earned b table h, award-Earned bs table')
        | inr h ↦ rw h (award-Earned bs table')
      ]

  pub award_keeps :
      (bs : List Badge) (table : List Achievement) (q : Achievement → Bool)
      → exists_where q table ≡ true
      → exists_where q (award subject snapshot before bs table).1 ≡ true
  unfolding award
  award_keeps [] table q h = h
  award_keeps (b ∷ bs) table q h =
      award_keeps bs (award_one subject snapshot before b table).1 q (one_keeps b table q h)

  pub award-Owned :
      (bs : List Badge) (table : List Achievement)
      → let (fresh, final) = award subject snapshot before bs table in Owned subject final fresh
  unfolding award
  award-Owned [] table = tt
  award-Owned (b ∷ bs) table =
      let (grants, table') = award_one subject snapshot before b table in
      elim (Bool-cases grants) [
        | inl h ↦ rw h (
          award_keeps bs table' (has_badge subject b.code) (one_owned b table h),
          award-Owned bs table',
        )
        | inr h ↦ rw h (award-Owned bs table')
      ]

  pub award-IsKeyed :
      (bs : List Badge) (table : List Achievement)
      → IsKeyed table
      → IsKeyed (award subject snapshot before bs table).1
  unfolding award
  award-IsKeyed [] table h = h
  award-IsKeyed (b ∷ bs) table h =
      award-IsKeyed bs (award_one subject snapshot before b table).1 (award_one-IsKeyed b table h)

  -- Every badge of the list whose rule passes is owned in the table.
  abbrev pub Complete : List Achievement → List Badge → Type 0
  Complete table bs =
      All (λ b. rules b.code snapshot ≡ true → exists_where (has_badge subject b.code) table ≡ true)
        bs

  one_complete :
      (b : Badge) (table : List Achievement)
      → (exists_where (has_badge subject b.code) before ≡ true
          → exists_where (has_badge subject b.code) table ≡ true)
      → rules b.code snapshot ≡ true
      → exists_where (has_badge subject b.code) (award_one subject snapshot before b table).1 ≡ true
  one_complete b table kept passes =
      elim (Bool-cases (exists_where (has_badge subject b.code) before)) [
        | inl old ↦ one_keeps b table (has_badge subject b.code) (kept old)
        | inr new ↦ one_owned b table (unfold award_one in rw (new, passes) refl)
      ]

  pub award-Complete :
      (bs : List Badge) (table : List Achievement)
      → ((q : Achievement → Bool) → exists_where q before ≡ true → exists_where q table ≡ true)
      → Complete (award subject snapshot before bs table).1 bs
  unfolding award
  award-Complete [] table kept = tt
  award-Complete (b ∷ bs) table kept =
      let table' = (award_one subject snapshot before b table).1 in
      (
        λ passes.
            award_keeps bs table' (has_badge subject b.code)
              (one_complete b table (kept (has_badge subject b.code)) passes),
        award-Complete bs table' (λ q h. one_keeps b table q (kept q h)),
      )
