-- ===== src/Generation.antt =====
-- app/services/generation.py: which of the questions that a model wrote are kept. `str.lower` is a
-- parameter, and so is the likeness of two texts, lower-cased, that difflib's SequenceMatcher gives.
pub mod Fit
pub mod Apart
pub mod Outside
pub mod Seen
pub mod Run
pub mod Outcome
pub mod Ends
mod Tests
use brainxp_server.Prelude.{
  Bool, List, Option, String, [], if◌then◌else◌, leb, length, ltb, none, not, or_else, some, str_eq,
  true, ℕ, ◌&&◌, ◌++◌, ◌+◌, ◌==◌, ◌||◌, ◌∷◌,
}
use brainxp_server.Prelude.Int.{leb_ℤ, ltb_ℤ, pos, ℤ}
use brainxp_server.Prelude.Rows.{exists_where}
use brainxp_server.Prelude.Text.{codes, has_part, is_blank, same_codes, strip}
use brainxp_server.Rules.Float.{Float}
use brainxp_server.Tables.Study.{Criterion}

abbrev pub stem_max : ℕ
stem_max = 600

abbrev pub option_max : ℕ
option_max = 300

abbrev pub excerpt_max : ℕ
excerpt_max = 500

abbrev pub explanation_max : ℕ
explanation_max = 700

abbrev pub reference_max : ℕ
reference_max = 1500

abbrev pub criterion_max : ℕ
criterion_max = 300

abbrev pub indicator_max : ℕ
indicator_max = 300

pub record GeneratedQuestion : Type 0 where
  pub qtype : String
  pub stem : String
  pub options : Option (List String)
  pub correct_index : Option ℤ
  pub rubric : Option (List Criterion)
  pub reference_answer : Option String
  pub source_excerpt : String
  pub explanation : String
  pub difficulty : String
  pub bloom_level : String

-- A text with its limit.
abbrev pub Check : Type 0
Check = String × ℕ × ℕ

abbrev pub check : String → String → ℕ → Check
check name s cap = (name, length (codes s), cap)

unfoldable pub option_checks : List String → List Check
option_checks [] = []
option_checks (o ∷ os) = check "option" o option_max ∷ option_checks os

unfoldable pub rubric_checks : List Criterion → List Check
rubric_checks [] = []
rubric_checks (c ∷ cs) =
    check "criterion" c.criterion criterion_max
    ∷ check "indicator" c.indicator indicator_max
    ∷ rubric_checks cs

abbrev pub all_checks : GeneratedQuestion → List Check
all_checks q =
    check "stem" q.stem stem_max
      ∷ check "source_excerpt" q.source_excerpt excerpt_max
      ∷ check "explanation" q.explanation explanation_max
      ∷ check "reference_answer" (or_else q.reference_answer "") reference_max
      ∷ option_checks (or_else q.options [])
    ++ rubric_checks (or_else q.rubric [])

-- The first check that fails.
unfoldable pub first_over : List Check → Option Check
first_over [] = none
first_over ((name, size, cap) ∷ cs) = if ltb cap size then some (name, size, cap) else first_over cs

unfoldable pub overflow : GeneratedQuestion → Option Check
overflow q = first_over (all_checks q)

pub data Rejection : Type 0 where
  empty_stem_or_excerpt incomplete_rubric no_reference_answer not_four_options : Rejection
  key_out_of_range duplicate_or_empty_option banned_option : Rejection
  over_the_limit : Check → Rejection

-- `len(set(texts))`
unfoldable pub distinct_count : List (List ℕ) → ℕ
distinct_count [] = 0
distinct_count (x ∷ xs) = (if exists_where (same_codes x) xs then 0 else 1) + distinct_count xs

abbrev pub banned : List (List ℕ)
banned =
    codes "semua benar"
    ∷ codes "tidak ada yang benar"
    ∷ codes "all of the above"
    ∷ codes "none of the above"
    ∷ []

-- `any(b in o for b in banned)`
unfoldable pub is_banned : List ℕ → Bool
is_banned o = exists_where (has_part o) banned

abbrev pub blank_text : String → Bool
blank_text s = is_blank (codes s)

abbrev pub in_range : ℤ → Bool
in_range k = leb_ℤ (pos 0) k && ltb_ℤ k (pos 4)

unfoldable pub reject_essay : GeneratedQuestion → Option Rejection
reject_essay q = elim q.rubric [
  | none ↦ some incomplete_rubric
  | some cs ↦
      if not (leb 2 (length cs) && leb (length cs) 5)
      then some incomplete_rubric
      else if blank_text (or_else q.reference_answer "")
      then some no_reference_answer
      else none
]

module _ (lower : List ℕ → List ℕ) where
  -- `[o.strip().lower() for o in options]`
  unfoldable pub cleaned : List String → List (List ℕ)
  cleaned [] = []
  cleaned (o ∷ os) = lower (strip (codes o)) ∷ cleaned os

  unfoldable pub reject_options : List String → Option Rejection
  reject_options os =
      if not (distinct_count (cleaned os) == 4) || exists_where (λ o. length o == 0) (cleaned os)
      then some duplicate_or_empty_option
      else if exists_where is_banned (cleaned os)
      then some banned_option
      else none

  unfoldable pub reject_choice : GeneratedQuestion → Option Rejection
  reject_choice q = elim q.options [
    | none ↦ some not_four_options
    | some os ↦ if not (length os == 4) then some not_four_options else elim q.correct_index [
      | none ↦ some key_out_of_range
      | some k ↦ if not (in_range k) then some key_out_of_range else reject_options os
    ]
  ]

  unfoldable pub rejection : GeneratedQuestion → Option Rejection
  rejection q =
      if blank_text q.stem || blank_text q.source_excerpt
      then some empty_stem_or_excerpt
      else elim (overflow q) [
        | some over ↦ some (over_the_limit over)
        | none ↦ if str_eq q.qtype "essay" then reject_essay q else reject_choice q
      ]

  unfoldable pub keep : List GeneratedQuestion → List GeneratedQuestion
  keep [] = []
  keep (q ∷ qs) = elim (rejection q) [ none ↦ q ∷ keep qs | some why ↦ keep qs ]

module _ (F : Float) (likeness : String → String → F.Number) where
  open F use {ratio, lt}

  -- The stem is no closer to any kept one than the limit.
  unfoldable pub is_new : GeneratedQuestion → List GeneratedQuestion → Bool
  is_new q [] = true
  is_new q (k ∷ kept) = lt (likeness q.stem k.stem) (ratio 85 100) && is_new q kept

  -- The loop of `_dedupe`, with what it has kept.
  unfoldable pub dedupe_from :
      List GeneratedQuestion → List GeneratedQuestion → List GeneratedQuestion
  dedupe_from kept [] = kept
  dedupe_from kept (q ∷ qs) = dedupe_from (if is_new q kept then kept ++ q ∷ [] else kept) qs

  unfoldable pub dedupe : List GeneratedQuestion → List GeneratedQuestion
  dedupe items = dedupe_from [] items
