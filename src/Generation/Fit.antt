-- ===== src/Generation/Fit.antt =====
-- Which questions of a model are fit to be asked.
use brainxp_server.Generation.{
  Check, GeneratedQuestion, all_checks, blank_text, cleaned, distinct_count, first_over, in_range,
  is_banned, keep, overflow, reject_choice, reject_essay, reject_options, rejection,
}
use brainxp_server.Prelude.{
  All, Bool, Bool-cases, List, Option-cases, String, [], ap, arith, eq_iff, false, inl, inr, length,
  none, or_else, refl, some, str_eq, suc, true, ℕ, ◌==◌, ◌↔◌, ◌∷◌, ◌≡◌, ◌≢◌, ◌≤◌,
}
use brainxp_server.Prelude.Int.{ℤ}
use brainxp_server.Prelude.Rows.{exists_where}
use brainxp_server.Prelude.Text.{same_codes, same_codes_iff}
use brainxp_server.Tables.Study.{Criterion}

-- Every element differs from those behind it.
abbrev pub AreDistinct : List (List ℕ) → Type 0
AreDistinct [] = Unit
AreDistinct (x ∷ xs) = All (λ y. x ≢ y) xs × AreDistinct xs

abbrev pub IsWithin : Check → Type 0
IsWithin (name, size, cap) = size ≤ cap

first_over_iff : (cs : List Check) → (first_over cs ≡ none) ↔ All IsWithin cs
unfolding first_over
first_over_iff [] = (λ h. tt, λ h. refl)
first_over_iff ((name, size, cap) ∷ cs) =
    let (found, free) = first_over_iff cs in
    (λ h. ground (arith, found), λ h. ground (arith, free h.1))

absent_iff :
    (x : List ℕ) (xs : List (List ℕ))
    → (exists_where (same_codes x) xs ≡ false) ↔ All (λ y. x ≢ y) xs
unfolding exists_where
absent_iff x [] = (λ h. tt, λ h. refl)
absent_iff x (y ∷ xs) =
    let (found, free) = absent_iff x xs in
    let same = same_codes_iff x y in
    (
      λ h. elim (Bool-cases (same_codes x y)) [
        | inl e ↦ absurd (ground arith)
        | inr e ↦ (λ p. cc (same.1 p), found (ground arith))
      ],
      λ h. elim (Bool-cases (same_codes x y)) [
        | inl e ↦ absurd (h.0 (same.0 e))
        | inr e ↦ rw e (free h.1)
      ],
    )

distinct_count-le : (xs : List (List ℕ)) → distinct_count xs ≤ length xs
unfolding distinct_count
distinct_count-le [] = omega arith
distinct_count-le (x ∷ xs) = ground (arith, distinct_count-le xs)

distinct_iff : (xs : List (List ℕ)) → (distinct_count xs ≡ length xs) ↔ AreDistinct xs
unfolding distinct_count
distinct_iff [] = (λ h. tt, λ h. refl)
distinct_iff (x ∷ xs) =
    let (found, free) = distinct_iff xs in
    let (alone, apart) = absent_iff x xs in
    let few = distinct_count-le xs in
    (
      λ h. elim (Bool-cases (exists_where (same_codes x) xs)) [
        | inl e ↦ absurd (ground arith)
        | inr e ↦ (alone e, found (ground arith))
      ],
      λ h. let none' = apart h.0 in let rest = free h.1 in rw none' (ground arith),
    )

none_pass_iff :
    {A : Type 0} (p : A → Bool) (xs : List A)
    → (exists_where p xs ≡ false) ↔ All (λ x. p x ≡ false) xs
unfolding exists_where
none_pass_iff p [] = (λ h. tt, λ h. refl)
none_pass_iff p (x ∷ xs) =
    let (found, free) = none_pass_iff p xs in
    (
      λ h. elim (Bool-cases (p x)) [
        | inl e ↦ absurd (ground arith)
        | inr e ↦ (e, found (ground arith))
      ],
      λ h. rw h.0 (free h.1),
    )

-- An essay has a rubric of two to five criteria, and a reference answer.
pub record IsEssay (q : GeneratedQuestion) : Type 0 where
  pub criteria : List Criterion
  pub has_rubric : q.rubric ≡ some criteria
  pub enough : 2 ≤ length criteria
  pub few : length criteria ≤ 5
  pub has_reference : blank_text (or_else q.reference_answer "") ≡ false

module _ (lower : List ℕ → List ℕ) where
  -- A choice has four options that are different and not empty when cleaned, none of which refers to
  -- the others, and a key among them.
  pub record IsChoice (q : GeneratedQuestion) : Type 0 where
    pub options : List String
    pub key : ℤ
    pub has_options : q.options ≡ some options
    pub four : length options ≡ 4
    pub has_key : q.correct_index ≡ some key
    pub key_in_range : in_range key ≡ true
    pub different : AreDistinct (cleaned lower options)
    pub not_empty : All (λ o. length o ≢ 0) (cleaned lower options)
    pub on_their_own : All (λ o. is_banned o ≡ false) (cleaned lower options)

  abbrev pub HasShape : GeneratedQuestion → Type 0
  HasShape q = (q.qtype ≡ "essay" → IsEssay q) × (q.qtype ≢ "essay" → IsChoice q)

  pub record IsFit (q : GeneratedQuestion) : Type 0 where
    pub has_stem : blank_text q.stem ≡ false
    pub has_excerpt : blank_text q.source_excerpt ≡ false
    pub within_limits : All IsWithin (all_checks q)
    pub shape : HasShape q

  length-cleaned : (os : List String) → length (cleaned lower os) ≡ length os
  unfolding cleaned
  length-cleaned [] = refl
  length-cleaned (o ∷ os) = ap suc (length-cleaned os)

  All-not_zero :
      (xs : List (List ℕ)) → All (λ o. (length o == 0) ≡ false) xs ↔ All (λ o. length o ≢ 0) xs
  All-not_zero [] = (λ h. tt, λ h. tt)
  All-not_zero (x ∷ xs) =
      let (a, b) = All-not_zero xs in
      (λ h. (λ e. ground arith, a h.1), λ h. (ground (arith, h.0), b h.1))

  reject_essay_iff : (q : GeneratedQuestion) → (reject_essay q ≡ none) ↔ IsEssay q
  unfolding reject_essay
  reject_essay_iff q = (
    λ h. elim (Option-cases q.rubric) [
      | inl n ↦ absurd (ground arith)
      | inr (cs, e) ↦ record {
        criteria = cs;
        has_rubric = e;
        enough = ground arith;
        few = ground arith;
        has_reference = ground arith;
      }
    ],
    λ h. ground (arith, h.has_rubric, h.enough, h.few, h.has_reference),
  )

  options_iff :
      (os : List String)
      → length os ≡ 4
      → (reject_options lower os ≡ none) ↔ (
          AreDistinct (cleaned lower os)
          × All (λ o. length o ≢ 0) (cleaned lower os)
          × All (λ o. is_banned o ≡ false) (cleaned lower os))
  unfolding reject_options
  options_iff os four =
      let cs = cleaned lower os in
      let len = length-cleaned os in
      let (d, d') = distinct_iff cs in
      let (e, e') = none_pass_iff (λ (o : List ℕ). length o == 0) cs in
      let (b, b') = none_pass_iff is_banned cs in
      let (z, z') = All-not_zero cs in
      (
        λ h. (d (ground arith), z (e (ground arith)), b (ground arith)),
        λ (x, y, w). let p = d' x in let q = e' (z' y) in let r = b' w in ground arith,
      )

  reject_choice_iff : (q : GeneratedQuestion) → (reject_choice lower q ≡ none) ↔ IsChoice q
  unfolding reject_choice
  reject_choice_iff q = (
    λ h. elim (Option-cases q.options) [
      | inl n ↦ absurd (ground arith)
      | inr (os, e) ↦ elim (Option-cases q.correct_index) [
        | inl n ↦ absurd (ground arith)
        | inr (k, e') ↦
            let four : length os ≡ 4 = ground arith in
            let (a, b, c) = (options_iff os four).0 (ground arith) in
            record {
              options = os;
              key = k;
              has_options = e;
              four = four;
              has_key = e';
              key_in_range = ground arith;
              different = a;
              not_empty = b;
              on_their_own = c;
            }
      ]
    ],
    λ h.
        let clean = (options_iff h.options h.four).1 (h.different, h.not_empty, h.on_their_own) in
        ground (arith, h.has_options, h.four, h.has_key, h.key_in_range),
  )

  -- A question that a model wrote is kept exactly when it is fit: a stem and an excerpt that are not
  -- blank, every text within its limit, and, for an essay, two to five criteria and a reference answer,
  -- for a choice, a key among exactly four options, which are all different and not empty once cleaned
  -- and do not refer to all or none of the others.
  pub rejection_iff : (q : GeneratedQuestion) → (rejection lower q ≡ none) ↔ IsFit q
  unfolding rejection overflow
  rejection_iff q =
      let (under, over) = first_over_iff (all_checks q) in
      let (essay, essay') = reject_essay_iff q in
      let (choice, choice') = reject_choice_iff q in
      (
        λ h. elim (Option-cases (first_over (all_checks q))) [
          | inr (c, e) ↦ absurd (ground arith)
          | inl e ↦ record {
            has_stem = ground arith;
            has_excerpt = ground arith;
            within_limits = under e;
            shape = (
              λ t. essay (ground (arith, eq_iff q.qtype "essay")),
              λ t. choice (ground (arith, eq_iff q.qtype "essay")),
            );
          }
        ],
        λ h.
            let fits = over h.within_limits in
            elim (Bool-cases (str_eq q.qtype "essay")) [
              | inl e ↦
                  let passes = essay' (h.shape.0 ((eq_iff q.qtype "essay").0 e)) in
                  ground (arith, h.has_stem, h.has_excerpt)
              | inr e ↦
                  let passes = choice' (h.shape.1 (λ t. cc ((eq_iff q.qtype "essay").1 t))) in
                  ground (arith, h.has_stem, h.has_excerpt)
            ],
      )

  -- What is kept is fit.
  pub keep-IsFit : (qs : List GeneratedQuestion) → All IsFit (keep lower qs)
  unfolding keep
  keep-IsFit [] = tt
  keep-IsFit (q ∷ qs) = elim (Option-cases (rejection lower q)) [
    | inl e ↦ rw (e, keep) ((rejection_iff q).0 e, keep-IsFit qs)
    | inr (why, e) ↦ rw (e, keep) (keep-IsFit qs)
  ]
