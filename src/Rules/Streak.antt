-- ===== src/Rules/Streak.antt =====
-- `StreakState` and `advance_streak` of app/services/rules.py. A date is its ordinal.
use brainxp_server.Prelude.{
  ==_iff, Bool-cases, Option, Option-cases, arith, equals_id, if◌then◌else◌, inl, inr, max, none,
  refl, some, suc, zero, ℕ, ◌%◌, ◌&&◌, ◌+◌, ◌/◌, ◌<◌, ◌==◌, ◌∙◌, ◌≡◌, ◌≤◌, ◌⊎◌,
}
use brainxp_server.Prelude.Int.{
  +ℤ_parts, +ℤ_zero, -ℤ_parts, eqb_ℤ, ltb_ℤ, min_ℤ, negsuc, pos, sub_ℕ, ℤ, ◌+ℤ◌, ◌-ℤ◌, ◌<ℤ◌, ◌≤ℤ◌,
}

pub record StreakState : Type 0 where
  pub current : ℕ
  pub longest : ℕ
  pub freeze_tokens : ℤ
  pub last_study_day : Option ℕ

-- The streak and the tokens before the weekly token, by the days since the last study day.
abbrev pub after_gap : StreakState → ℤ → ℕ × ℤ
after_gap s gap =
    if eqb_ℤ gap (pos 1)
    then (s.current + 1, s.freeze_tokens)
    else if eqb_ℤ gap (pos 2) && ltb_ℤ (pos 0) s.freeze_tokens
    then (s.current + 1, s.freeze_tokens -ℤ pos 1)
    else (1, s.freeze_tokens)

abbrev pub continued : StreakState → Option ℕ → ℕ → ℕ × ℤ
continued s none today = (1, s.freeze_tokens)
continued s (some last) today = after_gap s (sub_ℕ today last)

-- One token for every full week, two at most.
abbrev pub weekly_token : ℕ × ℤ → ℤ
weekly_token (current, tokens) =
    if current % 7 == 0 then min_ℤ (pos 2) (tokens +ℤ pos 1) else tokens

unfoldable pub advance_streak : StreakState → ℕ → StreakState
advance_streak s today =
    let (current, tokens) = continued s s.last_study_day today in
    if equals_id s.last_study_day today then s else record {
      current = current;
      longest = max s.longest current;
      freeze_tokens = weekly_token (current, tokens);
      last_study_day = some today;
    }

-- The table's check that the tokens are between zero and two, and a longest streak that is never behind.
pub record IsStreak (s : StreakState) : Type 0 where
  pub tokens_lower : pos 0 ≤ℤ s.freeze_tokens
  pub tokens_upper : s.freeze_tokens ≤ℤ pos 2
  pub longest_bound : s.current ≤ s.longest

-- Studying on any day keeps the tokens between zero and two and the longest streak at least the
-- current one.
pub advance_streak-IsStreak :
    (s : StreakState) (today : ℕ) → IsStreak s → IsStreak (advance_streak s today)
unfolding advance_streak
advance_streak-IsStreak s today h = ground (
  arith,
  +ℤ_parts s.freeze_tokens (pos 1),
  -ℤ_parts s.freeze_tokens (pos 1),
  +ℤ_parts (s.freeze_tokens -ℤ pos 1) (pos 1),
)

-- A second session on the same day changes nothing.
pub advance_streak_idempotent :
    (s : StreakState) (today : ℕ)
    → advance_streak (advance_streak s today) today ≡ advance_streak s today
unfolding advance_streak
advance_streak_idempotent s today = elim (Option-cases s.last_study_day) [
  | inl e ↦ ground arith
  | inr (d, e) ↦ ground arith
]

-- The state that a session on `today` leaves, for the streak and the tokens before the weekly token: one
-- token more at the end of every seven days, but never more than two.
abbrev pub Became : StreakState → ℕ → ℕ → ℤ → StreakState → Type 0
Became s today current tokens t =
    (t.current ≡ current)
    × (t.longest ≡ max s.longest current)
    × (t.last_study_day ≡ some today)
    × (t.freeze_tokens ≡ (if current % 7 == 0 then min_ℤ (pos 2) (tokens +ℤ pos 1) else tokens))

-- There was no session yet, or the last one is not of today, of yesterday, or, with a token, of the day
-- before.
abbrev pub IsBroken : StreakState → ℕ → Type 0
IsBroken s today =
    (s.last_study_day ≡ none)
    ⊎ ((d : ℕ) × (s.last_study_day ≡ some d)
        × ((today < d) ⊎ ((d + 2 < today) ⊎ ((today ≡ d + 2) × (s.freeze_tokens ≤ℤ pos 0)))))

-- A session on the day of the last one leaves the state as it is. On the next day the streak is one more;
-- so it is after one missed day, for a token, if there is one. In every other case, a first session, an
-- earlier day, a missed day without a token and a longer gap, the streak is one and no token is spent.
-- The longest streak, the last day and the weekly token follow in each.
pub advance_streak_cases :
    (s : StreakState) (today : ℕ)
    → let t = advance_streak s today in
      ((s.last_study_day ≡ some today) × (t ≡ s))
      ⊎ (((d : ℕ) × (s.last_study_day ≡ some d)
            × (today ≡ d + 1)
            × Became s today (s.current + 1) s.freeze_tokens t)
          ⊎ (((d : ℕ) × (s.last_study_day ≡ some d)
                × (today ≡ d + 2)
                × (pos 0 <ℤ s.freeze_tokens)
                × Became s today (s.current + 1) (s.freeze_tokens -ℤ pos 1) t)
              ⊎ (IsBroken s today × Became s today 1 s.freeze_tokens t)))
unfolding advance_streak
advance_streak_cases s today = elim (Option-cases s.last_study_day) [
  | inl e ↦ rw (e, advance_streak) (inr (inr (inr (inl refl, (refl, refl, refl, refl)))))
  | inr (d, e) ↦ elim (Bool-cases (d == today)) [
    | inl b ↦ rw (e, b, advance_streak) (inl (ground (arith, ==_iff d today), refl))
    | inr b ↦ elim (Bool-cases (eqb_ℤ (sub_ℕ today d) (pos 1))) [
      | inl g ↦
          rw (e, b, g, advance_streak) (inr (inl (d, refl, ground arith, (refl, refl, refl, refl))))
      | inr g ↦ elim (Bool-cases (eqb_ℤ (sub_ℕ today d) (pos 2) && ltb_ℤ (pos 0) s.freeze_tokens)) [
        | inl k ↦
            rw (e, b, g, k, advance_streak)
              (inr (inr (inl (d, refl, ground arith, ground arith, (refl, refl, refl, refl)))))
        | inr k ↦
            rw (e, b, g, k, advance_streak)
              (inr (
                inr
                  (inr (inr (d, refl, ground (arith, ==_iff d today)), (refl, refl, refl, refl)))))
      ]
    ]
  ]
]

-- The next day, whatever the streak is.
next_day_lem :
    (s : StreakState) (d : ℕ)
    → s.last_study_day ≡ some d
    → Became s (d + 1) (s.current + 1) s.freeze_tokens (advance_streak s (d + 1))
unfolding advance_streak
next_day_lem s d e = ground arith

min_step :
    (k : ℤ) (q : ℕ)
    → min_ℤ (pos 2) (min_ℤ (pos 2) (k +ℤ pos q) +ℤ pos 1) ≡ min_ℤ (pos 2) (k +ℤ pos (q + 1))
unfolding ◌+ℤ◌
min_step (pos k) q = ground arith
min_step (negsuc k) q = ground arith

-- The tokens of n + 2 days from those of n + 1 days.
week_step :
    (k : ℤ) (n : ℕ)
    → (if (n + 1 + 1) % 7 == 0
        then min_ℤ (pos 2) (min_ℤ (pos 2) (k +ℤ pos ((n + 1) / 7)) +ℤ pos 1)
        else min_ℤ (pos 2) (k +ℤ pos ((n + 1) / 7)))
      ≡ min_ℤ (pos 2) (k +ℤ pos ((suc n + 1) / 7))
week_step k n = elim (Bool-cases ((n + 1 + 1) % 7 == 0)) [
  | inl e ↦
      let more : (suc n + 1) / 7 ≡ (n + 1) / 7 + 1 = ground arith in
      rw (e, more) (min_step k ((n + 1) / 7))
  | inr e ↦ let same : (suc n + 1) / 7 ≡ (n + 1) / 7 = ground arith in rw (e, same) refl
]

-- A session on each of the n days after `first`, the last day first.
abbrev pub study_run : ℕ → ℕ → StreakState → StreakState
study_run zero first s = advance_streak s first
study_run (suc n) first s = advance_streak (study_run n first s) (first + suc n)

-- A subject that starts without a streak and studies n + 1 days in a row has a streak of n + 1 days,
-- ended on the last of them, and has gained a token for each full week, up to two in all.
pub study_run_lem :
    (n first : ℕ) (s : StreakState)
    → s.last_study_day ≡ none
    → s.freeze_tokens ≤ℤ pos 2
    → let t = study_run n first s in
      (t.current ≡ n + 1)
      × (t.last_study_day ≡ some (first + n))
      × (t.freeze_tokens ≡ min_ℤ (pos 2) (s.freeze_tokens +ℤ pos ((n + 1) / 7)))
unfolding advance_streak
study_run_lem zero first s e h = ground (arith, +ℤ_zero s.freeze_tokens)
study_run_lem (suc n) first s e h =
    let t = study_run n first s in
    let (current, last, tokens) = study_run_lem n first s e h in
    let (c, l, d, k) = next_day_lem t (first + n) last in
    let next : first + suc n ≡ first + n + 1 = omega arith in
    rw next (ground arith, d, k ∙ rw (current, tokens) (week_step s.freeze_tokens n))
