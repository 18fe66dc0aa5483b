-- ===== src/Quizzes/Counts.antt =====
-- What the receipt adds up to.
use brainxp_server.Prelude.{
  All, Bool, List, Option-cases, [], ap, arith, if◌then◌else◌, inl, inr, is_some, length,
  length-append, none, not, refl, some, str_eq, true, ◌&&◌, ◌+◌, ◌∙◌, ◌∷◌, ◌≡◌,
}
use brainxp_server.Prelude.Exec.{Result, err, ok}
use brainxp_server.Prelude.Rows.{count_where, count_where-append}
use brainxp_server.Quizzes.Marking.{Graded}
use brainxp_server.Quizzes.Receipt.{
  ReceiptRow, Tally, before_factors, earns_nothing, multiplier, receipt_row, tally_all, tally_one,
}
use brainxp_server.Rules.Float.{Float}
use brainxp_server.Tables.Study.{QuizSession}

module _ (F : Float) where
  open F use {Number, ratio, add}

  -- An answer that is paid: it was not flagged, and it earned something.
  abbrev pub pays : Graded F → Bool
  pays g = not g.mark.injection_flag && not (earns_nothing F g.mark)

  -- The sum of what the paid answers earned before the level and the novelty of the session.
  unfoldable pub paid_sum : QuizSession → Number → List (Graded F) → Number
  paid_sum ses acc [] = acc
  paid_sum ses acc (g ∷ gs) =
      paid_sum ses (if pays g then add acc (before_factors F ses g.mark.reward_seconds) else acc) gs

  -- What a receipt says of its answers.
  pub record IsTally (ses : QuizSession) (gs : List (Graded F)) (before after : Tally F)
      : Type 0 where
    pub one_row_each : length after.rows ≡ length before.rows + length gs
    pub correct_count : after.correct ≡ before.correct + count_where pays gs
    pub hard_count :
        after.hard
        ≡ before.hard + count_where (λ g. pays g && str_eq g.question.difficulty "sulit") gs
    pub essay_count :
        after.essay_passed
        ≡ before.essay_passed + count_where (λ g. pays g && str_eq g.question.qtype "essay") gs
    pub voided_count :
        count_where (λ r. r.voided) after.rows
        ≡ count_where (λ r. r.voided) before.rows + count_where (λ g. not (pays g)) gs
    pub sum : after.subtotal ≡ paid_sum ses before.subtotal gs

  -- The receipt of one answer.
  tally_one-IsTally :
      (ses : QuizSession) (g : Graded F) (mult : Number) (t : Tally F)
      → IsTally ses (g ∷ []) t (tally_one F ses g mult t)
  unfolding tally_one count_where paid_sum
  tally_one-IsTally ses g mult t =
      let row = receipt_row F g mult in
      let flagged = row (ratio 0 1) (some "ditandai") none in
      let wrong = row (ratio 0 1) (some "salah") g.mark.score in
      let right =
        row (F.round_cents (before_factors F ses g.mark.reward_seconds)) none g.mark.score in
      record {
        one_row_each = ground (
          arith,
          length-append t.rows (flagged ∷ []),
          length-append t.rows (wrong ∷ []),
          length-append t.rows (right ∷ []),
        );
        correct_count = ground arith;
        hard_count = ground arith;
        essay_count = ground arith;
        voided_count = ground (
          arith,
          count_where-append (λ (r : ReceiptRow F). r.voided) t.rows (flagged ∷ []),
          count_where-append (λ (r : ReceiptRow F). r.voided) t.rows (wrong ∷ []),
          count_where-append (λ (r : ReceiptRow F). r.voided) t.rows (right ∷ []),
        );
        sum = ground arith;
      }

  IsTally-trans :
      (ses : QuizSession) (g : Graded F) (gs : List (Graded F)) (a b c : Tally F)
      → IsTally ses (g ∷ []) a b
      → IsTally ses gs b c
      → IsTally ses (g ∷ gs) a c
  unfolding count_where paid_sum
  IsTally-trans ses g gs a b c p q = record {
    one_row_each = omega (arith, p.one_row_each, q.one_row_each);
    correct_count = omega (arith, p.correct_count, q.correct_count);
    hard_count = omega (arith, p.hard_count, q.hard_count);
    essay_count = omega (arith, p.essay_count, q.essay_count);
    voided_count = omega (arith, p.voided_count, q.voided_count);
    sum = q.sum ∙ ap (λ (x : Number). paid_sum ses x gs) p.sum;
  }

  abbrev IsSum : QuizSession → List (Graded F) → Tally F → Result (Tally F) → Type 0
  IsSum ses gs t (ok t') = IsTally ses gs t t'
  IsSum ses gs t (err e) = Unit

  tally_all-IsSum :
      (ses : QuizSession) (gs : List (Graded F)) (t : Tally F)
      → IsSum ses gs t (tally_all F ses gs t)
  unfolding tally_all count_where paid_sum
  tally_all-IsSum ses [] t = record {
    one_row_each = omega arith;
    correct_count = omega arith;
    hard_count = omega arith;
    essay_count = omega arith;
    voided_count = omega arith;
    sum = refl;
  }
  tally_all-IsSum ses (g ∷ gs) t = elim (Option-cases (multiplier F g.question)) [
    | inl e ↦ rw (e, tally_all) tt
    | inr (mult, e) ↦
        rw (e, tally_all)
          (chain mult (tally_all F ses gs (tally_one F ses g mult t))
            (tally_all-IsSum ses gs (tally_one F ses g mult t)))
  ]
    where
      chain :
          (mult : Number) (r : Result (Tally F))
          → IsSum ses gs (tally_one F ses g mult t) r
          → IsSum ses (g ∷ gs) t r
      chain mult (ok t') h =
          IsTally-trans ses g gs t (tally_one F ses g mult t) t' (tally_one-IsTally ses g mult t) h
      chain mult (err e) h = tt

  abbrev pub HasFactors : Graded F → Type 0
  HasFactors g = is_some (multiplier F g.question) ≡ true

  -- The receipt is added up for any number of marked answers, in any order, whose difficulties and
  -- types have factors. It has a row for each; as many are counted as correct as were not flagged and
  -- earned something, and of these the hard ones and the essays; every other row is voided; and the
  -- subtotal is the sum of what the counted ones earned, divided by the session's factors.
  pub tally_all_lem :
      (ses : QuizSession) (gs : List (Graded F)) (t : Tally F)
      → All HasFactors gs
      → (t' : Tally F) × (tally_all F ses gs t ≡ ok t') × IsTally ses gs t t'
  unfolding tally_all
  tally_all_lem ses [] t h = (t, refl, tally_all-IsSum ses [] t)
  tally_all_lem ses (g ∷ gs) t h = elim (Option-cases (multiplier F g.question)) [
    | inl e ↦ absurd (cc (rw e at h.0))
    | inr (mult, e) ↦
        let (t', e', p) = tally_all_lem ses gs (tally_one F ses g mult t) h.1 in
        (
          t',
          rw (e, tally_all) e',
          IsTally-trans ses g gs t (tally_one F ses g mult t) t' (tally_one-IsTally ses g mult t) p,
        )
  ]
