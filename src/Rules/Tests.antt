-- ===== src/Rules/Tests.antt =====
-- The rules at concrete inputs.
use brainxp_server.Prelude.{
  Bool, Option, String, arith, false, if◌then◌else◌, ltb, none, not, refl, some, true, ℕ, ◌*◌, ◌+◌,
  ◌/◌, ◌<◌, ◌↔◌, ◌≡◌, ◌≢◌, ◌≤◌, ◌⊎◌,
}
use brainxp_server.Prelude.Int.{min_ℤ, pos, ◌+ℤ◌, ◌-ℤ◌, ◌<ℤ◌, ◌≤ℤ◌}
use brainxp_server.Rules.Calendar.{day, day_key, hour, next_reset, next_reset-day_key, second}
use brainxp_server.Rules.Float.{thousandths, thousandths-IsFloat}
use brainxp_server.Rules.Gate.{
  evaluate_gate, evaluate_gate_lem, level_index, level_too_low, not_study_material, too_thin,
}
use brainxp_server.Rules.Play.{
  BlockReason, block_reason, block_reason-playable_seconds, playable_seconds,
}
use brainxp_server.Rules.Reward.{full_reward, question_reward, question_reward_lem, session_mix}
use brainxp_server.Rules.Streak.{
  Became, IsBroken, IsStreak, StreakState, advance_streak, advance_streak-IsStreak,
  advance_streak_cases, study_run, study_run_lem,
}

-- 19:30 of a Tuesday's ordinal, with the reset at 04:00.
abbrev evening : ℕ
evening = 9 * day + 19 * hour + 30 * 60 * second

next_reset-day_key_example :
    let nxt = next_reset evening 4 in
    (evening < nxt)
    × (nxt ≤ evening + day)
    × (evening ≤ evening + hour
        → evening + hour < nxt
        → day_key (evening + hour) 4 ≡ day_key evening 4)
    × (day_key nxt 4 ≡ day_key evening 4 + 1)
next_reset-day_key_example =
    next_reset-day_key evening 4 (evening + hour) (omega arith) (omega arith)

next_reset_test : next_reset evening 4 ≡ 10 * day + 4 * hour
unfolding next_reset
next_reset_test = refl

abbrev new_streak : StreakState
new_streak = record { current = 0; longest = 0; freeze_tokens = pos 1; last_study_day = none }

study_run_lem_example :
    let t = study_run 13 100 new_streak in
    (t.current ≡ 14)
    × (t.last_study_day ≡ some 113)
    × (t.freeze_tokens ≡ min_ℤ (pos 2) (pos 1 +ℤ pos (14 / 7)))
study_run_lem_example = study_run_lem 13 100 new_streak refl (omega arith)

abbrev six_days : StreakState
six_days = record { current = 6; longest = 9; freeze_tokens = pos 2; last_study_day = some 106 }

advance_streak-IsStreak_example : IsStreak (advance_streak six_days 107)
advance_streak-IsStreak_example =
    advance_streak-IsStreak six_days 107 (record {
      tokens_lower = omega arith;
      tokens_upper = omega arith;
      longest_bound = omega arith;
    })

-- A missed day, and no token left.
abbrev no_token : StreakState
no_token = record { current = 6; longest = 9; freeze_tokens = pos 0; last_study_day = some 106 }

advance_streak_cases_example :
    let t = advance_streak no_token 108 in
    ((no_token.last_study_day ≡ some 108) × (t ≡ no_token))
    ⊎ (((d : ℕ) × (no_token.last_study_day ≡ some d)
          × (108 ≡ d + 1)
          × Became no_token 108 7 (pos 0) t)
        ⊎ (((d : ℕ) × (no_token.last_study_day ≡ some d)
              × (108 ≡ d + 2)
              × (pos 0 <ℤ pos 0)
              × Became no_token 108 7 (pos 0 -ℤ pos 1) t)
            ⊎ (IsBroken no_token 108 × Became no_token 108 1 (pos 0) t)))
advance_streak_cases_example = advance_streak_cases no_token 108

no_token_test :
    advance_streak no_token 108
    ≡ record { current = 1; longest = 9; freeze_tokens = pos 0; last_study_day = some 108 }
unfolding advance_streak
no_token_test = refl

block_reason-playable_seconds_example :
    let p = playable_seconds (pos 900) (pos 3600) (pos 3000) false in
    ((block_reason (pos 900) (pos 3600) (pos 3000) false ≡ BlockReason.none) ↔ (pos 0 <ℤ p))
    × (pos 0 ≤ℤ p)
    × (pos 0 <ℤ p → (p ≤ℤ pos 900) × (p +ℤ pos 3000 ≤ℤ pos 3600))
block_reason-playable_seconds_example =
    block_reason-playable_seconds (pos 900) (pos 3600) (pos 3000) false

playable_seconds_test : playable_seconds (pos 900) (pos 3600) (pos 3000) false ≡ pos 600
unfolding playable_seconds ◌-ℤ◌
playable_seconds_test = refl

session_mix_test : session_mix thousandths 5 500 ≡ (pos 2, pos 3)
unfolding session_mix ◌-ℤ◌
session_mix_test = refl

abbrev essay : String
essay = "essay"

abbrev wrong : Bool
wrong = false

abbrev eighty : Option ℕ
eighty = some 80000

question_reward_lem_example :
    let r = question_reward thousandths 60 "sulit" essay 1000 600 wrong eighty in
    let full = full_reward thousandths 60 "sulit" essay 1000 600 in
    (essay ≡ "mcq" → wrong ≡ false → r ≡ 0)
    × (essay ≡ "mcq" → wrong ≡ true → r ≡ full)
    × (essay ≢ "mcq" → eighty ≡ none → r ≡ 0)
    × ((s : ℕ) → essay ≢ "mcq" → eighty ≡ some s → ltb s (60 * 1000 / 1) ≡ true → r ≡ 0)
    × (ltb r 0 ≡ false)
    × (ltb full r ≡ false)
question_reward_lem_example =
    question_reward_lem thousandths thousandths-IsFloat 60 "sulit" essay 1000 600 refl refl wrong
      eighty

evaluate_gate_lem_example :
    let g = evaluate_gate thousandths "sma" "smp" 500 true (pos 0) in
    ((g.accepted ≡ true) ↔ (
      (true ≡ true)
      × (ltb 500 (20 * 1000 / 100) ≡ false)
      × (level_index "sma" ≤ level_index "smp")))
    × (g.accepted ≡ true → (g.level ≡ 1000) × (g.reject_reason ≡ none))
    × (g.accepted ≡ false
        → (g.level ≡ 0)
          × (g.reject_reason ≡ (
              if not true
              then some not_study_material
              else if ltb 500 (20 * 1000 / 100)
              then some too_thin
              else some level_too_low)))
evaluate_gate_lem_example =
    evaluate_gate_lem thousandths thousandths-IsFloat "sma" "smp" 500 true (pos 0)
