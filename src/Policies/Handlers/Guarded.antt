-- ===== src/Policies/Handlers/Guarded.antt =====
-- What the policy endpoints make of a row, within a day of a moment when nothing waited.
use mathlib.Core.Path.{subst}
use brainxp_server.Deps.{Caller}
use brainxp_server.Policies.{IsRatios, Ratios, apply_changes, is_in, is_weakening, weaken_delay}
use brainxp_server.Policies.Handlers.{
  cancelled, last_locked_of, locked, no_changes, pending_change, postpone, put_change,
  recently_added, unlock_change, without,
}
use brainxp_server.Policies.Weakening.{
  AllIn, DaysWithin, NotLooser, apply_changes-NotLooser, is_weakening_iff,
}
use brainxp_server.Prelude.{
  Bool-cases, List, Option, Option-cases, String, [], arith, eq_iff, false, inl, inr, length, ltb,
  none, or_else, refl, some, str_eq, true, ℕ, ◌++◌, ◌+◌, ◌<◌, ◌∷◌, ◌≡◌, ◌≤◌,
}
use brainxp_server.Prelude.Exec.{lift}
use brainxp_server.Prelude.Int.{ℤ}
use brainxp_server.Prelude.Triple.{Post}
use brainxp_server.Tables.{Db}
use brainxp_server.Tables.Activity.{Changes, Policy}

DaysWithin-trans :
    (xs ys zs : List ℤ)
    → length xs ≡ length ys
    → DaysWithin xs ys
    → DaysWithin ys zs
    → DaysWithin xs zs
DaysWithin-trans [] ys zs e h k = tt
DaysWithin-trans (x ∷ xs) [] zs e h k = absurd (omega arith)
DaysWithin-trans (x ∷ xs) (y ∷ ys) [] e h k = tt
DaysWithin-trans (x ∷ xs) (y ∷ ys) (z ∷ zs) e h k =
    (omega arith, DaysWithin-trans xs ys zs (omega arith) h.1 k.1)

is_in-AllIn :
    (x : String) (ys zs : List String) → is_in x ys ≡ true → AllIn ys zs → is_in x zs ≡ true
unfolding is_in
is_in-AllIn x [] zs h k = cc
is_in-AllIn x (y ∷ ys) zs h k = elim (Bool-cases (str_eq y x)) [
  | inl e ↦ subst (λ w. is_in w zs ≡ true) ((eq_iff y x).0 e) k.0
  | inr e ↦ is_in-AllIn x ys zs (rw e at h) k.1
]

AllIn-trans : (xs ys zs : List String) → AllIn xs ys → AllIn ys zs → AllIn xs zs
AllIn-trans [] ys zs h k = tt
AllIn-trans (x ∷ xs) ys zs h k = (is_in-AllIn x ys zs h.0 k, AllIn-trans xs ys zs h.1 k)

is_in-append : (x y : String) (ys : List String) → is_in x ys ≡ true → is_in x (ys ++ y ∷ []) ≡ true
unfolding is_in
is_in-append x y [] h = cc
is_in-append x y (z ∷ ys) h = ground (arith, is_in-append x y ys)

AllIn-append : (xs ys : List String) (y : String) → AllIn xs ys → AllIn xs (ys ++ y ∷ [])
AllIn-append [] ys y h = tt
AllIn-append (x ∷ xs) ys y h = (is_in-append x y ys h.0, AllIn-append xs ys y h.1)

abbrev pub IsWeek : Policy → Type 0
IsWeek p = (length p.daily_caps ≡ 7) × (length p.daily_grants ≡ 7)

NotLooser-trans :
    (p q r : Policy) → IsWeek p → IsWeek q → NotLooser p q → NotLooser q r → NotLooser p r
NotLooser-trans p q r wp wq h k = record {
  reward = omega (arith, h.reward, k.reward);
  idle = omega (arith, h.idle, k.idle);
  questions = omega (arith, h.questions, k.questions);
  caps = DaysWithin-trans _ _ _ (omega (arith, wp.0, wq.0)) h.caps k.caps;
  grants = DaysWithin-trans _ _ _ (omega (arith, wp.1, wq.1)) h.grants k.grants;
  apps = AllIn-trans _ _ _ h.apps k.apps;
  essays = omega (arith, h.essays, k.essays);
}

-- What `PolicyIn` lets through: seven days to a week, and none of the keys that it does not have.
pub record IsBody (c : Changes) : Type 0 where
  pub caps_week : (v : List ℤ) → c.daily_caps ≡ some v → length v ≡ 7
  pub grants_week : (v : List ℤ) → c.daily_grants ≡ some v → length v ≡ 7
  pub no_key : c.last_locked ≡ none

-- The row at a moment within a day of `since`, when it was `start`.
pub record Guarded (start : Policy) (since : ℕ) (p : Policy) : Type 0 where
  pub start_week : IsWeek start
  pub week : IsWeek p
  pub tight : NotLooser start p
  pub waits : (due : ℕ) → p.pending_weaken_at ≡ some due → since + weaken_delay ≤ due
  pub no_undo : last_locked_of p ≡ none

week_of_choice :
    (v : Option (List ℤ)) (d : List ℤ)
    → ((x : List ℤ) → v ≡ some x → length x ≡ 7)
    → length d ≡ 7
    → length (or_else v d) ≡ 7
week_of_choice none d h k = k
week_of_choice (some x) d h k = h x refl

-- The columns beside the rules do not matter.
bookkeeping :
    (start p : Policy) (due : Option ℕ) (payload : Option Changes) (user : Option ℕ) (at : ℕ)
    → NotLooser start p
    → NotLooser start (record p {
      pending_weaken_at = due;
      pending_weaken_payload = payload;
      updated_by = user;
      updated_at = at;
    })
bookkeeping start p due payload user at h = record {
  reward = h.reward;
  idle = h.idle;
  questions = h.questions;
  caps = h.caps;
  grants = h.grants;
  apps = h.apps;
  essays = h.essays;
}

recently_added_never :
    (x : String) (at : ℕ) (p : Policy) → last_locked_of p ≡ none → recently_added x at p ≡ false
unfolding recently_added
recently_added_never x at p h = ground arith

module _ (start : Policy) (since at : ℕ) (after_start : since ≤ at) where
  postpone-Guarded :
      (c : Changes) (user : Option ℕ) (p : Policy)
      → c.last_locked ≡ none
      → Guarded start since p
      → Guarded start since (postpone c user at p)
  unfolding postpone
  postpone-Guarded c user p no_key g = record {
    start_week = g.start_week;
    week = g.week;
    tight = bookkeeping start p (some (at + weaken_delay)) (some c) user at g.tight;
    waits = λ due h. ground arith;
    no_undo = no_key;
  }

  pub put_change-Guarded :
      (R : Ratios) (me : Caller) (c : Changes) (p : Policy)
      → IsRatios R
      → IsBody c
      → Guarded start since p
      → Guarded start since (put_change R me c true at p).1
  unfolding put_change apply_changes
  put_change-Guarded R me c p law body g = elim (Bool-cases (is_weakening R p c)) [
    | inl e ↦ rw e (postpone-Guarded c me.user_id p body.no_key g)
    | inr e ↦
        let q = apply_changes R c p in
        let fits = apply_changes-NotLooser R p c law ((is_weakening_iff R p c).0 e) in
        rw e (record {
          start_week = g.start_week;
          week = (
            week_of_choice c.daily_caps p.daily_caps body.caps_week g.week.0,
            week_of_choice c.daily_grants p.daily_grants body.grants_week g.week.1,
          );
          tight =
              bookkeeping start q p.pending_weaken_at p.pending_weaken_payload me.user_id at
                (NotLooser-trans start p q g.start_week g.week g.tight fits);
          waits = λ due h. g.waits due h;
          no_undo = g.no_undo;
        })
  ]

  -- Nothing that waits is due yet.
  pub pending_change_waits :
      (R : Ratios) (me : Caller) (p : Policy) (db : Db) (Q : Policy → Db → Type 0)
      → at < since + weaken_delay
      → Guarded start since p
      → Post Q (lift (pending_change R me at p) db)
  unfolding pending_change
  pending_change_waits R me p db Q early g = elim (Option-cases p.pending_weaken_at) [
    | inl e ↦ rw e tt
    | inr (due, e) ↦ let late : ltb at due ≡ true = ground (arith, g.waits due e) in rw (e, late) tt
  ]

  pub cancelled-Guarded :
      (p : Policy) → Guarded start since p → Guarded start since (cancelled at p)
  cancelled-Guarded p g = record {
    start_week = g.start_week;
    week = g.week;
    tight = bookkeeping start p none none p.updated_by at g.tight;
    waits = λ due h. cc;
    no_undo = refl;
  }

  pub locked-Guarded :
      (me : Caller) (x : String) (p : Policy)
      → Guarded start since p
      → Guarded start since (locked me x at p)
  locked-Guarded me x p g = record {
    start_week = g.start_week;
    week = g.week;
    tight = record {
      reward = g.tight.reward;
      idle = g.tight.idle;
      questions = g.tight.questions;
      caps = g.tight.caps;
      grants = g.tight.grants;
      apps = AllIn-append start.locked_apps p.locked_apps x g.tight.apps;
      essays = g.tight.essays;
    };
    waits = λ due h. g.waits due h;
    no_undo = g.no_undo;
  }

  pub unlock_change-Guarded :
      (me : Caller) (x : String) (p : Policy)
      → Guarded start since p
      → Guarded start since (unlock_change me x true at p).1
  unfolding unlock_change
  unlock_change-Guarded me x p g = rw (recently_added_never x at p g.no_undo) (
      postpone-Guarded (record no_changes { locked_apps = some (without x p.locked_apps) })
        p.updated_by p refl g)
