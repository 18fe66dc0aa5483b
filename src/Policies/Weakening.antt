-- ===== src/Policies/Weakening.antt =====
-- What `_is_weakening` of app/routers/policies.py tests.
use text.Mathlib.TextPositions.{eq_refl}
use brainxp_server.Policies.{
  IsRatios, Ratios, any_day, any_day_higher, apply_changes, higher, is_in, is_weakening, kept_ratio,
  lower, lower_ratio, removes, removes_any,
}
use brainxp_server.Prelude.{
  All, Bool, Bool-cases, List, Option, String, [], arith, false, inl, inr, none, or_else, refl,
  some, true, ℕ, ◌||◌, ◌↔◌, ◌∷◌, ◌≡◌, ◌≤◌,
}
use brainxp_server.Prelude.Int.{ltb_ℤ, ℤ, ◌≤ℤ◌}
use brainxp_server.Prelude.Text.{before}
use brainxp_server.Tables.Activity.{Changes, Policy}

-- Day by day, as far as both lists go, no entry of the second is above the first's.
abbrev pub DaysWithin : List ℤ → List ℤ → Type 0
DaysWithin [] after = Unit
DaysWithin (b ∷ before) [] = Unit
DaysWithin (b ∷ before) (a ∷ after) = (a ≤ℤ b) × DaysWithin before after

-- Every app of the list is in the other.
abbrev pub AllIn : List String → List String → Type 0
AllIn apps v = All (λ x. is_in x v ≡ true) apps

-- The second policy allows nothing that the first does not, in the rules that the code compares.
pub record NotLooser (p q : Policy) : Type 0 where
  pub reward : q.base_reward_seconds ≤ℤ p.base_reward_seconds
  pub idle : q.idle_days_allowed ≤ℤ p.idle_days_allowed
  pub questions : p.questions_per_session ≤ℤ q.questions_per_session
  pub caps : DaysWithin p.daily_caps q.daily_caps
  pub grants : DaysWithin p.daily_grants q.daily_grants
  pub apps : AllIn p.locked_apps q.locked_apps
  pub essays : p.essay_ratio ≤ q.essay_ratio

-- A body asks for nothing that the policy does not allow already. Its share of essays is compared with
-- the row's as doubles, before the column rounds it.
pub record AsksNoMore (R : Ratios) (p : Policy) (c : Changes) : Type 0 where
  pub reward : or_else c.base_reward_seconds p.base_reward_seconds ≤ℤ p.base_reward_seconds
  pub idle : or_else c.idle_days_allowed p.idle_days_allowed ≤ℤ p.idle_days_allowed
  pub questions : p.questions_per_session ≤ℤ or_else c.questions_per_session p.questions_per_session
  pub caps : DaysWithin p.daily_caps (or_else c.daily_caps p.daily_caps)
  pub grants : DaysWithin p.daily_grants (or_else c.daily_grants p.daily_grants)
  pub apps : AllIn p.locked_apps (or_else c.locked_apps p.locked_apps)
  pub essays : R.double p.essay_ratio ≤ or_else c.essay_ratio (R.double p.essay_ratio)

days_iff : (after before : List ℤ) → (any_day_higher after before ≡ false) ↔ DaysWithin before after
unfolding any_day_higher
days_iff [] [] = (λ h. tt, λ h. refl)
days_iff [] (b ∷ before) = (λ h. tt, λ h. refl)
days_iff (a ∷ after) [] = (λ h. tt, λ h. refl)
days_iff (a ∷ after) (b ∷ before) =
    let rest = days_iff after before in
    elim (Bool-cases (ltb_ℤ b a)) [
      | inl e ↦ rw e (λ h. cc, λ h. absurd (ground arith))
      | inr e ↦ rw e (λ h. (ground arith, rest.0 h), λ h. rest.1 h.1)
    ]

apps_iff : (current v : List String) → (removes_any current v ≡ false) ↔ AllIn current v
unfolding removes_any
apps_iff [] v = (λ h. tt, λ h. refl)
apps_iff (x ∷ current) v =
    let rest = apps_iff current v in
    elim (Bool-cases (is_in x v)) [
      | inl e ↦ rw e (λ h. (refl, rest.0 h), λ h. rest.1 h.1)
      | inr e ↦ rw e (λ h. cc, λ h. cc (h.0))
    ]

is_in-cons : (x y : String) (ys : List String) → is_in x ys ≡ true → is_in x (y ∷ ys) ≡ true
unfolding is_in
is_in-cons x y ys h = ground arith

AllIn-cons : (y : String) (apps ys : List String) → AllIn apps ys → AllIn apps (y ∷ ys)
AllIn-cons y [] ys h = tt
AllIn-cons y (x ∷ apps) ys h = (is_in-cons x y ys h.0, AllIn-cons y apps ys h.1)

pub AllIn-refl : (apps : List String) → AllIn apps apps
unfolding is_in
AllIn-refl [] = tt
AllIn-refl (x ∷ apps) = (rw (eq_refl x) refl, AllIn-cons x apps apps (AllIn-refl apps))

pub DaysWithin-refl : (days : List ℤ) → DaysWithin days days
DaysWithin-refl [] = tt
DaysWithin-refl (d ∷ days) = (omega arith, DaysWithin-refl days)

higher_iff : (v : Option ℤ) (cur : ℤ) → (higher v cur ≡ false) ↔ (or_else v cur ≤ℤ cur)
higher_iff none cur = (λ h. omega arith, λ h. refl)
higher_iff (some v) cur = (λ h. ground arith, λ h. ground arith)

lower_iff : (v : Option ℤ) (cur : ℤ) → (lower v cur ≡ false) ↔ (cur ≤ℤ or_else v cur)
lower_iff none cur = (λ h. omega arith, λ h. refl)
lower_iff (some v) cur = (λ h. ground arith, λ h. ground arith)

lower_ratio_iff :
    (R : Ratios) (v : Option ℕ) (cur : ℕ)
    → (lower_ratio R v cur ≡ false) ↔ (R.double cur ≤ or_else v (R.double cur))
lower_ratio_iff R none cur = (λ h. omega arith, λ h. refl)
lower_ratio_iff R (some v) cur = (λ h. ground arith, λ h. ground arith)

any_day_iff :
    (v : Option (List ℤ)) (cur : List ℤ) → (any_day v cur ≡ false) ↔ DaysWithin cur (or_else v cur)
any_day_iff none cur = (λ h. DaysWithin-refl cur, λ h. refl)
any_day_iff (some v) cur = days_iff v cur

removes_iff :
    (v : Option (List String)) (cur : List String)
    → (removes v cur ≡ false) ↔ AllIn cur (or_else v cur)
removes_iff none cur = (λ h. AllIn-refl cur, λ h. refl)
removes_iff (some v) cur = apps_iff cur v

or_false : (a b : Bool) → (a || b) ≡ false → (a ≡ false) × (b ≡ false)
or_false true true h = cc
or_false true false h = cc
or_false false b h = (refl, h)

-- A body is no weakening exactly when it asks for nothing more: no higher reward, no more idle days, no
-- fewer questions, no day with a higher cap or grant, no app taken off the locked ones, and no share of
-- essays that is, as a double and before the column rounds it, below that of the row.
pub is_weakening_iff :
    (R : Ratios) (p : Policy) (c : Changes) → (is_weakening R p c ≡ false) ↔ AsksNoMore R p c
unfolding is_weakening
is_weakening_iff R p c = (
  λ h.
      let (r₁, h₇) = or_false _ (lower_ratio R c.essay_ratio p.essay_ratio) h in
      let (r₂, h₆) = or_false _ (removes c.locked_apps p.locked_apps) r₁ in
      let (r₃, h₅) = or_false _ (any_day c.daily_grants p.daily_grants) r₂ in
      let (r₄, h₄) = or_false _ (any_day c.daily_caps p.daily_caps) r₃ in
      let (r₅, h₃) = or_false _ (lower c.questions_per_session p.questions_per_session) r₄ in
      let (h₁, h₂) = or_false _ (higher c.idle_days_allowed p.idle_days_allowed) r₅ in
      record {
        reward = (higher_iff c.base_reward_seconds p.base_reward_seconds).0 h₁;
        idle = (higher_iff c.idle_days_allowed p.idle_days_allowed).0 h₂;
        questions = (lower_iff c.questions_per_session p.questions_per_session).0 h₃;
        caps = (any_day_iff c.daily_caps p.daily_caps).0 h₄;
        grants = (any_day_iff c.daily_grants p.daily_grants).0 h₅;
        apps = (removes_iff c.locked_apps p.locked_apps).0 h₆;
        essays = (lower_ratio_iff R c.essay_ratio p.essay_ratio).0 h₇;
      },
  λ h.
      rw
        (
          (higher_iff c.base_reward_seconds p.base_reward_seconds).1 h.reward,
          (higher_iff c.idle_days_allowed p.idle_days_allowed).1 h.idle,
          (lower_iff c.questions_per_session p.questions_per_session).1 h.questions,
          (any_day_iff c.daily_caps p.daily_caps).1 h.caps,
          (any_day_iff c.daily_grants p.daily_grants).1 h.grants,
          (removes_iff c.locked_apps p.locked_apps).1 h.apps,
          (lower_ratio_iff R c.essay_ratio p.essay_ratio).1 h.essays,
        )
        refl,
)

-- The policy that such a body leads to allows nothing more.
kept_ratio_lem :
    (R : Ratios) (v : Option ℕ) (cur : ℕ)
    → IsRatios R
    → R.double cur ≤ or_else v (R.double cur)
    → cur ≤ kept_ratio R v cur
kept_ratio_lem R none cur law h = omega arith
kept_ratio_lem R (some v) cur law h =
    omega (arith, law.column_mono (R.double cur) v h, law.column-double cur)

pub apply_changes-NotLooser :
    (R : Ratios) (p : Policy) (c : Changes)
    → IsRatios R
    → AsksNoMore R p c
    → NotLooser p (apply_changes R c p)
unfolding apply_changes
apply_changes-NotLooser R p c law h = record {
  reward = h.reward;
  idle = h.idle;
  questions = h.questions;
  caps = h.caps;
  grants = h.grants;
  apps = h.apps;
  essays = kept_ratio_lem R c.essay_ratio p.essay_ratio law h.essays;
}
