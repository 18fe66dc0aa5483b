-- ===== src/Migrate/Resume.antt =====
-- Runs of app/migrate.py that follow each other.
use mathlib.Core.List.{append-nil, append_assoc}
use brainxp_server.Documents.{lookup_text}
use brainxp_server.Migrate.{
  Exit, Schema, apply_all, apply_file, apply_todo, has, latest, legacy_baseline, legacy_names,
  prepare, raised, record_name, run_migrations, split_by, split_pending, stamps,
}
use brainxp_server.Prelude.{
  Bool, Bool-cases, List, Option-cases, String, [], ap, arith, eq_iff, false, inl, inr, none, not,
  refl, str_eq, sym, true, ◌&&◌, ◌++◌, ◌∙◌, ◌∷◌, ◌≡◌, ◌≢◌, ◌⊎◌,
}
use brainxp_server.Prelude.Exec.{ok}
use brainxp_server.Prelude.Rows.{exists_where, exists_where-append}
use brainxp_server.Prelude.Text.{codes}

unfoldable pub distinct : List String → Bool
distinct [] = true
distinct (x ∷ xs) = not (has x xs) && distinct xs

-- A file that comes later is none of those before.
distinct_later :
    (xs ys : List String) (y : String)
    → distinct (xs ++ ys) ≡ true
    → has y ys ≡ true
    → has y xs ≡ false
unfolding distinct exists_where
distinct_later [] ys y d h = refl
distinct_later (x ∷ xs) ys y d h = elim (Bool-cases (str_eq y x)) [
  | inl e ↦
      let is_x = (eq_iff y x).0 e in
      let there : has x (xs ++ ys) ≡ true =
        ground (arith, exists_where-append (str_eq x) xs ys, rw is_x at h) in
      ground arith
  | inr e ↦ rw e (distinct_later xs ys y (ground arith) h)
]

-- Files that were all applied are not pending.
split_done :
    (done xs ys : List String)
    → ((y : String) → has y xs ≡ true → has y done ≡ true)
    → split_by none done (xs ++ ys) ≡ split_by none done ys
unfolding split_by exists_where
split_done done [] ys all = refl
split_done done (x ∷ xs) ys all =
    let x_done = all x (ground (arith, eq_iff x x)) in
    rw x_done (split_done done xs ys (λ y h. all y (ground arith)))

-- Files none of which was applied are all to be run.
split_todo :
    (done ys : List String)
    → ((y : String) → has y ys ≡ true → has y done ≡ false)
    → split_by none done ys ≡ ([], ys)
unfolding split_by exists_where
split_todo done [] all = refl
split_todo done (y ∷ ys) all =
    let new = all y (ground (arith, eq_iff y y)) in
    rw (new, split_todo done ys (λ z h. all z (ground arith))) refl

stamps_front : (xs ys : List String) → stamps (xs ++ ys) ≡ [] → stamps xs ≡ []
unfolding stamps
stamps_front [] ys h = refl
stamps_front (x ∷ xs) ys h = elim (Option-cases (lookup_text (codes x) legacy_names)) [
  | inl e ↦ rw (e, stamps) (stamps_front xs ys (rw (e, stamps) at h))
  | inr (s, e) ↦ let q = rw (e, stamps) at h in cc
]

-- A prefix of the files took effect, each in its turn, and it is what is recorded.
pub record IsPrefix (files : List String) (s : Schema) : Type 0 where
  pub rest : List String
  pub split : files ≡ s.executed ++ rest
  pub recorded : s.recorded ≡ s.executed

pending_lem :
    (files : List String) (s : Schema) (p : IsPrefix files s)
    → distinct files ≡ true
    → stamps files ≡ []
    → split_pending files s.recorded ≡ ([], p.rest)
unfolding split_pending legacy_baseline latest
pending_lem files s p d old =
    let front = stamps_front s.executed p.rest (rw p.split at old) in
    rw (p.recorded, p.split, legacy_baseline, front, latest)
      (split_done s.executed s.executed p.rest (λ y h. h)
        ∙ split_todo s.executed p.rest
            (λ y h. distinct_later s.executed p.rest y (rw p.split at d) h))

-- What a run leaves: a prefix, and either a script did not work, and the run raised, or all of the files
-- took effect.
abbrev pub IsResumed : (String → Bool) → List String → Schema × Exit → Type 0
IsResumed works files r =
    IsPrefix files r.0
    × (((r.1 ≡ raised) × (name : String) × (has name files ≡ true) × (works name ≡ false))
        ⊎ ((r.1 ≢ raised) × (r.0.executed ≡ files)))

apply_all-IsResumed :
    (works : String → Bool) (files rest : List String) (s : Schema)
    → files ≡ s.executed ++ rest
    → s.recorded ≡ s.executed
    → distinct files ≡ true
    → IsResumed works files (apply_all works rest s)
unfolding apply_all apply_file record_name exists_where
apply_all-IsResumed works files [] s split same d = (
  record { rest = []; split = split; recorded = same },
  inr (λ e. cc, sym (split ∙ append-nil s.executed)),
)
apply_all-IsResumed works files (name ∷ rest) s split same d =
    let own : has name (name ∷ rest) ≡ true = ground (arith, eq_iff name name) in
    let listed : has name (s.executed ++ name ∷ rest) ≡ true =
      ground (arith, exists_where-append (str_eq name) s.executed (name ∷ rest)) in
    elim (Bool-cases (works name)) [
      | inr e ↦
          rw (e, apply_all, apply_file)
            (
              record { rest = name ∷ rest; split = split; recorded = same },
              inl (refl, name, rw split listed, e),
            )
      | inl e ↦
          let later = distinct_later s.executed (name ∷ rest) name (rw split at d) own in
          rw (e, apply_all, apply_file, record_name, same, later)
            (apply_all-IsResumed works files rest
              (record { recorded = s.executed ++ name ∷ []; executed = s.executed ++ name ∷ [] })
              (split ∙ sym (append_assoc s.executed (name ∷ []) rest)) refl d)
    ]

-- The state after any number of runs, each with some scripts that work.
pub data Migrated (files : List String) : Schema → Type 0 where
  blank : Migrated files (record { recorded = []; executed = [] })
  again :
      {s : Schema}
      → Migrated files s
      → (works : String → Bool) → Migrated files (run_migrations works files s).0

prepare_lem :
    (files : List String) (s : Schema) (p : IsPrefix files s)
    → distinct files ≡ true
    → stamps files ≡ []
    → prepare files s ≡ ok (p.rest, s)
unfolding prepare
prepare_lem files s p d old =
    let q = pending_lem files s p d old in
    rw (q, prepare) (ap (λ (x : List String × List String). ok (x.1, s)) q)

front_nil : (xs ys : List String) → ◌≡◌ {A = List String} [] (xs ++ ys) → xs ≡ []
front_nil [] ys h = refl
front_nil (x ∷ xs) ys h = cc

run_migrations-IsResumed :
    (works : String → Bool) (files : List String) (s : Schema)
    → distinct files ≡ true
    → stamps files ≡ []
    → IsPrefix files s
    → IsResumed works files (run_migrations works files s)
unfolding run_migrations
run_migrations-IsResumed works [] s d old p =
    (p, inr (λ e. cc, front_nil s.executed p.rest p.split))
run_migrations-IsResumed works (f ∷ files) s d old p =
    rw (run_migrations, prepare_lem (f ∷ files) s p d old) (go p.rest p.split)
  where
    go :
        (rest : List String)
        → f ∷ files ≡ s.executed ++ rest
        → IsResumed works (f ∷ files) (apply_todo works rest s)
    go [] split = (p, inr (λ e. cc, sym (split ∙ append-nil s.executed)))
    go (x ∷ xs) split = apply_all-IsResumed works (f ∷ files) (x ∷ xs) s split p.recorded d

Migrated-IsPrefix :
    (files : List String) (s : Schema)
    → distinct files ≡ true
    → stamps files ≡ []
    → Migrated files s
    → IsPrefix files s
Migrated-IsPrefix files s d old blank = record { rest = files; split = refl; recorded = refl }
Migrated-IsPrefix files s d old (again {s = t} m works) =
    (run_migrations-IsResumed works files t d old (Migrated-IsPrefix files t d old m)).0

-- Take files without two of the same name and without a name of the older scheme, and start with an
-- empty database. However often the migrations were run, and whichever scripts raised, the scripts that
-- took effect are a prefix of the files, each once and in order, and exactly they are recorded. So it is
-- after one more run, which either raises, when the script of some file does not work, or does not, and
-- then every file took effect.
pub Migrated-IsResumed :
    (files : List String) (s : Schema)
    → distinct files ≡ true
    → stamps files ≡ []
    → Migrated files s
    → (works : String → Bool)
    → IsPrefix files s × IsResumed works files (run_migrations works files s)
Migrated-IsResumed files s d old m works =
    let p = Migrated-IsPrefix files s d old m in (p, run_migrations-IsResumed works files s d old p)
