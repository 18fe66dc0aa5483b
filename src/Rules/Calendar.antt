-- ===== src/Rules/Calendar.antt =====
-- The calendar functions of app/services/rules.py. A date is its proleptic ordinal, and a local time
-- the number of microseconds since midnight of ordinal 0, as the wall clock of the zone shows it
-- (`astimezone` is the time zone database's, and its result is the argument here).
use brainxp_server.Prelude.{
  Bool, List, Option, arith, false, get_elem?, get_elem?_total, if◌then◌else◌, leb, length, none,
  refl, some, true, ℕ, ◌%◌, ◌*◌, ◌+◌, ◌-◌, ◌/◌, ◌<◌, ◌↔◌, ◌≡◌, ◌≤◌,
}
use brainxp_server.Prelude.Int.{+ℤ_parts, ltb_ℤ, pos, sub_ℕ, ℤ, ◌+ℤ◌, ◌<ℤ◌}

abbrev pub second : ℕ
second = 1000000

abbrev pub hour : ℕ
hour = 3600 * second

abbrev pub day : ℕ
day = 86400 * second

abbrev pub week : ℕ
week = 7

-- date.weekday(): ordinal 1 is a Monday.
abbrev pub weekday : ℕ → ℕ
weekday d = (d + 6) % 7

-- `none` is Python's IndexError.
unfoldable pub cap_for : ℕ → List ℤ → Option ℤ
cap_for d caps = get_elem? caps (weekday d % week)

unfoldable pub grant_for : ℕ → List ℤ → Option ℤ
grant_for d grants = get_elem? grants (weekday d % week)

unfoldable pub idle_gap : Option ℕ → ℕ → Option ℤ
idle_gap none today = none
idle_gap (some last) today = some (sub_ℕ today last)

unfoldable pub locked_by_idle : Option ℕ → ℕ → ℤ → Bool
unfolding idle_gap
locked_by_idle last today allowed = elim (idle_gap last today) [
  | none ↦ false
  | some gap ↦ ltb_ℤ allowed gap
]

unfoldable pub day_key : ℕ → ℕ → ℕ
day_key local reset_hour = (local - reset_hour * hour) / day

-- `local.replace(hour=reset_hour, …)`, and a day later when that is not ahead.
unfoldable pub next_reset : ℕ → ℕ → ℕ
next_reset local reset_hour =
    let nxt = local / day * day + reset_hour * hour in if leb nxt local then nxt + day else nxt

unfoldable pub seconds_until_reset : ℕ → ℕ → ℕ
unfolding next_reset
seconds_until_reset local reset_hour = (next_reset local reset_hour - local) / second

-- In a list of seven entries every date finds its cap.
pub cap_for_total : (d : ℕ) (caps : List ℤ) → length caps ≡ 7 → (c : ℤ) × (cap_for d caps ≡ some c)
unfolding cap_for
cap_for_total d caps h = get_elem?_total caps (weekday d % week) (omega arith)

-- The same for the grants.
pub grant_for_total :
    (d : ℕ) (grants : List ℤ) → length grants ≡ 7 → (g : ℤ) × (grant_for d grants ≡ some g)
unfolding grant_for
grant_for_total d grants h = get_elem?_total grants (weekday d % week) (omega arith)

-- For every local time at or past the first reset and every reset hour of a day: the next reset is
-- ahead by at most a day, every moment before it has the day key of now, and the next reset itself
-- has the following day key.
pub next_reset-day_key :
    (local reset_hour t : ℕ)
    → reset_hour < 24
    → reset_hour * hour ≤ local
    → let nxt = next_reset local reset_hour in
      (local < nxt)
      × (nxt ≤ local + day)
      × (local ≤ t → t < nxt → day_key t reset_hour ≡ day_key local reset_hour)
      × (day_key nxt reset_hour ≡ day_key local reset_hour + 1)
unfolding next_reset day_key
next_reset-day_key local reset_hour t h k = ground arith

-- The countdown never exceeds a day of seconds, for every local time and reset hour of a day.
pub seconds_until_reset-le :
    (local reset_hour : ℕ) → reset_hour < 24 → seconds_until_reset local reset_hour ≤ 86400
unfolding seconds_until_reset
seconds_until_reset-le local reset_hour h = ground arith

-- A subject that has studied is locked exactly when more days than allowed lie between, and one
-- that has not is never locked.
pub locked_by_idle_iff :
    (last : Option ℕ) (today : ℕ) (allowed : ℤ)
    → (locked_by_idle last today allowed ≡ true)
      ↔ ((d : ℕ) × (last ≡ some d) × (pos d +ℤ allowed <ℤ pos today))
unfolding locked_by_idle
locked_by_idle_iff none today allowed = (λ h. cc, λ (d, e, h). cc)
locked_by_idle_iff (some d) today allowed = (
  λ h. (d, refl, ground (arith, +ℤ_parts (pos d) allowed)),
  λ (d', e, h). ground (arith, +ℤ_parts (pos d') allowed),
)
