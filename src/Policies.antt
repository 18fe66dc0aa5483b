-- ===== src/Policies.antt =====
-- app/routers/policies.py: a profile's rules, and the delay before a personal profile's own
-- loosening takes effect. The texts of the replies are left out.
pub mod Weakening
pub mod Handlers
mod Tests
use brainxp_server.Prelude.{
  Bool, List, Option, String, [], false, if◌then◌else◌, ltb, none, or_else, some, str_eq, true, ℕ,
  ◌*◌, ◌||◌, ◌∷◌, ◌≡◌, ◌≤◌,
}
use brainxp_server.Prelude.Int.{ltb_ℤ, ℤ}
use brainxp_server.Prelude.Text.{before}
use brainxp_server.Rules.Calendar.{hour, second}
use brainxp_server.Tables.Activity.{Changes, Policy}

-- WEAKEN_DELAY and UNDO_WINDOW, in microseconds.
abbrev pub weaken_delay : ℕ
weaken_delay = 24 * hour

abbrev pub undo_window : ℕ
undo_window = 10 * 60 * second

-- `v is not None and v > current`
abbrev pub higher : Option ℤ → ℤ → Bool
higher none current = false
higher (some v) current = ltb_ℤ current v

abbrev pub lower : Option ℤ → ℤ → Bool
lower none current = false
lower (some v) current = ltb_ℤ v current

-- What Python and the database make of a share of essays. A double that is not negative is the number
-- that its 64 bits are, and these numbers are ordered as the doubles are.
pub record Ratios : Type 0 where
  -- `float(x)` of a number of hundredths
  pub double : ℕ → ℕ
  -- the hundredths that the column keeps of a double
  pub column : ℕ → ℕ

-- What is documented of them: the column rounds to the nearest hundredth.
pub record IsRatios (R : Ratios) : Type 0 where
  pub column_mono : (v w : ℕ) → v ≤ w → R.column v ≤ R.column w
  pub column-double : (h : ℕ) → R.column (R.double h) ≡ h

-- `float(v) < float(current)`
abbrev pub lower_ratio : Ratios → Option ℕ → ℕ → Bool
lower_ratio R none current = false
lower_ratio R (some v) current = ltb v (R.double current)

abbrev pub kept_ratio : Ratios → Option ℕ → ℕ → ℕ
kept_ratio R none current = current
kept_ratio R (some v) current = R.column v

-- `any(after > before for after, before in zip(v, current))`
unfoldable pub any_day_higher : List ℤ → List ℤ → Bool
any_day_higher [] current = false
any_day_higher (after ∷ v) [] = false
any_day_higher (after ∷ v) (before ∷ current) =
    if ltb_ℤ before after then true else any_day_higher v current

abbrev pub any_day : Option (List ℤ) → List ℤ → Bool
any_day none current = false
any_day (some v) current = any_day_higher v current

-- `package in apps`
unfoldable pub is_in : String → List String → Bool
is_in x [] = false
is_in x (y ∷ ys) = if str_eq y x then true else is_in x ys

-- `set(current) - set(v)` is not empty.
unfoldable pub removes_any : List String → List String → Bool
unfolding is_in
removes_any [] v = false
removes_any (x ∷ current) v = if is_in x v then removes_any current v else true

abbrev pub removes : Option (List String) → List String → Bool
removes none current = false
removes (some v) current = removes_any current v

-- `_is_weakening`
unfoldable pub is_weakening : Ratios → Policy → Changes → Bool
unfolding any_day_higher removes_any
is_weakening R p c =
    higher c.base_reward_seconds p.base_reward_seconds
    || higher c.idle_days_allowed p.idle_days_allowed
    || lower c.questions_per_session p.questions_per_session
    || any_day c.daily_caps p.daily_caps
    || any_day c.daily_grants p.daily_grants
    || removes c.locked_apps p.locked_apps
    || lower_ratio R c.essay_ratio p.essay_ratio

-- `.values(**changes)`
unfoldable pub apply_changes : Ratios → Changes → Policy → Policy
apply_changes R c p = record p {
  questions_per_session = or_else c.questions_per_session p.questions_per_session;
  base_reward_seconds = or_else c.base_reward_seconds p.base_reward_seconds;
  essay_ratio = kept_ratio R c.essay_ratio p.essay_ratio;
  academic_level = or_else c.academic_level p.academic_level;
  question_language = or_else c.question_language p.question_language;
  daily_caps = or_else c.daily_caps p.daily_caps;
  daily_grants = or_else c.daily_grants p.daily_grants;
  idle_days_allowed = or_else c.idle_days_allowed p.idle_days_allowed;
  day_reset_hour = or_else c.day_reset_hour p.day_reset_hour;
  allowed_upload_methods = or_else c.allowed_upload_methods p.allowed_upload_methods;
  locked_apps = or_else c.locked_apps p.locked_apps;
}
