-- ===== src/Quizzes/Order.antt =====
-- The order of a session's questions, as `get_quiz` brings it up to date.
use mathlib.Core.List.{append-nil, append_assoc}
use brainxp_server.Prelude.{
  ==_iff, ==_self, All, Bool-cases, List, [], ap, arith, false, if◌then◌else◌, inl, inr, not, refl,
  sym, true, ℕ, ◌&&◌, ◌++◌, ◌==◌, ◌∙◌, ◌∷◌, ◌≡◌, ◌≤◌,
}
use brainxp_server.Prelude.Rows.{count_where, count_where-append}
use brainxp_server.Quizzes.{
  Permutations, contains_id, extend_order, has_choices, option_count, set_id,
}
use brainxp_server.Tables.Study.{Question}

abbrev pub occurrences : ℕ → List ℕ → ℕ
occurrences k = count_where (λ x. x == k)

-- No question stands twice.
abbrev pub IsOrder : List ℕ → Type 0
IsOrder order = (k : ℕ) → occurrences k order ≤ 1

contains_id-append :
    (k : ℕ) (xs ys : List ℕ)
    → contains_id k (xs ++ ys) ≡ (if contains_id k xs then true else contains_id k ys)
unfolding contains_id
contains_id-append k [] ys = refl
contains_id-append k (x ∷ xs) ys = ground (arith, contains_id-append k xs ys)

occurrences-absent : (k : ℕ) (xs : List ℕ) → contains_id k xs ≡ false → occurrences k xs ≡ 0
unfolding contains_id count_where
occurrences-absent k [] h = refl
occurrences-absent k (x ∷ xs) h = ground (arith, occurrences-absent k xs)

module _ (sample : ℕ → ℕ → List ℕ) where
  -- The order after one question was looked at.
  abbrev joined : Question → List ℕ → List ℕ
  joined q order = if not (contains_id q.id order) then order ++ q.id ∷ [] else order

  abbrev joined_options : Question → List ℕ → Permutations → Permutations
  joined_options q order perms =
      if not (contains_id q.id order) && has_choices q
      then set_id q.id (sample q.id (option_count q)) perms
      else perms

  joined_contains : (q : Question) (order : List ℕ) → contains_id q.id (joined q order) ≡ true
  unfolding contains_id
  joined_contains q order = ground (arith, contains_id-append q.id order (q.id ∷ []), ==_self q.id)

  joined_keeps :
      (k : ℕ) (q : Question) (order : List ℕ)
      → contains_id k order ≡ true
      → contains_id k (joined q order) ≡ true
  joined_keeps k q order h = ground (arith, contains_id-append k order (q.id ∷ []))

  joined-IsOrder : (q : Question) (order : List ℕ) → IsOrder order → IsOrder (joined q order)
  unfolding count_where
  joined-IsOrder q order h k = ground (
    arith,
    h k,
    count_where-append (λ x. x == k) order (q.id ∷ []),
    occurrences-absent q.id order,
    ==_iff q.id k,
  )

  keeps :
      (qs : List Question) (order : List ℕ) (perms : Permutations) (k : ℕ)
      → contains_id k order ≡ true
      → contains_id k (extend_order sample qs (order, perms)).0 ≡ true
  unfolding extend_order
  keeps [] order perms k h = h
  keeps (q ∷ qs) order perms k h =
      keeps qs (joined q order) (joined_options q order perms) k (joined_keeps k q order h)

  covers :
      (qs : List Question) (order : List ℕ) (perms : Permutations)
      → All (λ q. contains_id q.id (extend_order sample qs (order, perms)).0 ≡ true) qs
  unfolding extend_order
  covers [] order perms = tt
  covers (q ∷ qs) order perms = (
    keeps qs (joined q order) (joined_options q order perms) q.id (joined_contains q order),
    covers qs (joined q order) (joined_options q order perms),
  )

  extended-IsOrder :
      (qs : List Question) (order : List ℕ) (perms : Permutations)
      → IsOrder order
      → IsOrder (extend_order sample qs (order, perms)).0
  unfolding extend_order
  extended-IsOrder [] order perms h = h
  extended-IsOrder (q ∷ qs) order perms h =
      extended-IsOrder qs (joined q order) (joined_options q order perms) (joined-IsOrder q order h)

  -- The new questions stand behind the old ones, which keep their places.
  extended_behind :
      (qs : List Question) (order : List ℕ) (perms : Permutations)
      → (new : List ℕ) × ((extend_order sample qs (order, perms)).0 ≡ order ++ new)
  unfolding extend_order
  extended_behind [] order perms = ([], sym (append-nil order))
  extended_behind (q ∷ qs) order perms =
      let (new, e) = extended_behind qs (joined q order) (joined_options q order perms) in
      elim (Bool-cases (contains_id q.id order)) [
        | inl old ↦
            let same : joined q order ≡ order = rw old refl in
            (new, e ∙ ap (λ (xs : List ℕ). xs ++ new) same)
        | inr fresh ↦
            let same : joined q order ≡ order ++ q.id ∷ [] = rw fresh refl in
            (
              q.id ∷ new,
              e ∙ ap (λ (xs : List ℕ). xs ++ new) same ∙ append_assoc order (q.id ∷ []) new,
            )
      ]

  -- Nothing is added when every question is there.
  extend_order_idle :
      (qs : List Question) (order : List ℕ) (perms : Permutations)
      → All (λ q. contains_id q.id order ≡ true) qs
      → extend_order sample qs (order, perms) ≡ (order, perms)
  unfolding extend_order
  extend_order_idle [] order perms h = refl
  extend_order_idle (q ∷ qs) order perms h = rw h.0 (extend_order_idle qs order perms h.1)

  -- However a session's order and the questions of its set stand, the order that is shown keeps the
  -- old order in its place and adds the rest behind it: every question of the set is in it, none
  -- stands twice if none did, and a second look changes neither it nor the order of the options.
  pub extend_order_lem :
      (qs : List Question) (order : List ℕ) (perms : Permutations)
      → let state = extend_order sample qs (order, perms) in
        ((new : List ℕ) × (state.0 ≡ order ++ new))
        × All (λ q. contains_id q.id state.0 ≡ true) qs
        × (IsOrder order → IsOrder state.0)
        × (extend_order sample qs state ≡ state)
  extend_order_lem qs order perms =
      let (order', perms') = extend_order sample qs (order, perms) in
      (
        extended_behind qs order perms,
        covers qs order perms,
        extended-IsOrder qs order perms,
        extend_order_idle qs order' perms' (covers qs order perms),
      )
