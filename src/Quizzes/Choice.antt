-- ===== src/Quizzes/Choice.antt =====
-- A choice among options that are shown in another order.
use brainxp_server.Grading.{grade_mcq}
use brainxp_server.Prelude.{
  ==_iff, List, Option-cases, String, [], arith, get_elem?, inl, inr, or_else, refl, some, suc,
  true, zero, ℕ, ◌==◌, ◌↔◌, ◌∙◌, ◌∷◌, ◌≡◌,
}
use brainxp_server.Prelude.Exec.{ok}
use brainxp_server.Quizzes.{arrange, lookup_id}
use brainxp_server.Quizzes.Marking.{Mark, mark_mcq, real_index}
use brainxp_server.Quizzes.Shown.{shown_options}
use brainxp_server.Rules.Float.{Float}
use brainxp_server.Tables.Study.{Question, QuizAnswer, QuizSession}

arrange-cons :
    {A : Type 0} (options : List A) (j : ℕ) (perm : List ℕ) (shown : List A)
    → arrange options (j ∷ perm) ≡ some shown
    → (o : A) × (os : List A) × (get_elem? options j ≡ some o)
      × (arrange options perm ≡ some os)
      × (shown ≡ o ∷ os)
unfolding arrange
arrange-cons options j perm shown e = elim (Option-cases (get_elem? options j)) [
  | inl n ↦ absurd (cc (rw (n, arrange) at e))
  | inr (o, p) ↦ elim (Option-cases (arrange options perm)) [
    | inl n ↦ absurd (cc (rw (p, n, arrange) at e))
    | inr (os, q) ↦ (o, os, p, q, cc (rw (p, q, arrange) at e))
  ]
]

-- What is shown at a place is the option that the permutation names there.
get_elem?-arrange :
    {A : Type 0} (options : List A) (perm : List ℕ) (shown : List A) (i : ℕ) (o : A)
    → arrange options perm ≡ some shown
    → get_elem? shown i ≡ some o
    → (j : ℕ) × (get_elem? perm i ≡ some j) × (get_elem? options j ≡ some o)
unfolding arrange
get_elem?-arrange options [] [] i o e h = cc
get_elem?-arrange options [] (s ∷ shown) i o e h = cc
get_elem?-arrange options (j ∷ perm) shown zero o e h =
    let (o', os, p, q, r) = arrange-cons options j perm shown e in (j, refl, p ∙ cc (rw r at h))
get_elem?-arrange options (j ∷ perm) shown (suc i) o e h =
    let (o', os, p, q, r) = arrange-cons options j perm shown e in
    get_elem?-arrange options perm os i o q (rw r at h)

real_index_lem :
    (perm : List ℕ) (i j : ℕ) → get_elem? perm i ≡ some j → real_index perm (some i) ≡ ok (some j)
unfolding real_index
real_index_lem [] i j e = cc
real_index_lem (p ∷ perm) i j e = rw (e, real_index) refl

-- No text stands at two places.
abbrev pub IsDistinct : List String → Type 0
IsDistinct options =
    (i j : ℕ) (o : String) → get_elem? options i ≡ some o → get_elem? options j ≡ some o → i ≡ j

abbrev pub permutation_of : QuizSession → Question → List ℕ
permutation_of ses q = or_else (lookup_id q.id ses.option_permutation) []

-- A multiple-choice question, as a session shows it, with one right option.
pub record IsShown (F : Float) (ses : QuizSession) (q : Question) (shown : List String)
    (right : String) : Type 0 where
  pub options : List String
  pub key : ℕ
  pub has_options : q.options ≡ some options
  pub has_key : q.correct_index ≡ some key
  pub at_key : get_elem? options key ≡ some right
  pub distinct : IsDistinct options
  pub on_screen : shown_options F q (permutation_of ses q) ≡ some (some shown)

shown_arranged :
    (F : Float) (q : Question) (options shown : List String) (perm : List ℕ)
    → q.options ≡ some options
    → shown_options F q perm ≡ some (some shown)
    → arrange options perm ≡ some shown
unfolding shown_options
shown_arranged F q options shown perm h e = elim (Option-cases (arrange options perm)) [
  | inl n ↦ absurd (ground arith)
  | inr (os, p) ↦ ground arith
]

-- The key is picked exactly when the option that was picked is the one at the key.
picked_iff :
    (options : List String) (j key : ℕ) (o right : String)
    → IsDistinct options
    → get_elem? options j ≡ some o
    → get_elem? options key ≡ some right
    → ((key == j) ≡ true) ↔ (o ≡ right)
picked_iff options j key o right d p r = (
  λ t. let same : key ≡ j = (==_iff key j).0 t in cc (rw same at r),
  λ t. (==_iff key j).1 (d key j o (rw t r) p),
)

module _ (F : Float) (ses : QuizSession) (q : Question) (a : QuizAnswer) where
  -- Whatever order a session shows the options of a question in, if they are all different: a choice
  -- is marked, and is right exactly when the option that was shown at its place is the right one.
  pub mark_mcq-shown :
      (shown : List String) (right : String) (i : ℕ) (o : String)
      → IsShown F ses q shown right
      → a.chosen_index ≡ some i
      → get_elem? shown i ≡ some o
      → (m : Mark F) × (mark_mcq F ses q a ≡ ok m) × ((m.is_correct ≡ true) ↔ (o ≡ right))
  unfolding mark_mcq grade_mcq
  mark_mcq-shown shown right i o h chosen at_place =
      let arranged =
        shown_arranged F q h.options shown (permutation_of ses q) h.has_options h.on_screen in
      let (j, e, p) =
        get_elem?-arrange h.options (permutation_of ses q) shown i o arranged at_place in
      rw (chosen, real_index_lem (permutation_of ses q) i j e, h.has_key)
        (_, refl, picked_iff h.options j h.key o right h.distinct p h.at_key)
