-- ===== src/Migrate.antt =====
-- app/migrate.py: which migrations are pending, their adoption from the older names, and the run. The
-- files of the directory, sorted by name, are an argument; whether a script works is a parameter.
pub mod Resume
mod Tests
use brainxp_server.Documents.{lookup_text}
use brainxp_server.Prelude.{
  Bool, List, Option, String, [], false, if◌then◌else◌, ltb, none, not, some, str_eq, take, true, ℕ,
  ◌&&◌, ◌++◌, ◌==◌, ◌||◌, ◌∷◌,
}
use brainxp_server.Prelude.Exec.{Exec, err, internal, modify, ok, pure, raise_if, ◌>>=◌, ◌>>◌}
use brainxp_server.Prelude.Rows.{delete_where, exists_where}
use brainxp_server.Prelude.Text.{codes}

-- The rows of `schema_migrations`, and the scripts that took effect, in their order.
pub record Schema : Type 0 where
  pub recorded : List String
  pub executed : List String

abbrev pub stamp_length : ℕ
stamp_length = 14

abbrev pub legacy_names : List (String × String)
legacy_names =
    ("001_init.sql", "20260903192248")
    ∷ ("002_weekly_caps_and_idle_lock.sql", "20260904143651")
    ∷ ("003_installed_apps.sql", "20260907112627")
    ∷ ("004_push_tokens.sql", "20260908010020")
    ∷ ("005_guardian_alerts.sql", "20260908010021")
    ∷ []

-- `path.name[:STAMP_LENGTH]`
abbrev pub stamp_of : String → List ℕ
stamp_of name = take stamp_length (codes name)

-- `a <= b` of two texts.
unfoldable pub text_leb : List ℕ → List ℕ → Bool
text_leb [] b = true
text_leb (x ∷ a) [] = false
text_leb (x ∷ a) (y ∷ b) = ltb x y || x == y && text_leb a b

unfoldable pub stamps : List String → List (List ℕ)
stamps [] = []
stamps (name ∷ names) = elim (lookup_text (codes name) legacy_names) [
  | none ↦ stamps names
  | some stamp ↦ codes stamp ∷ stamps names
]

-- `max(stamps) if stamps else None`
unfoldable pub latest : List (List ℕ) → Option (List ℕ)
latest [] = none
latest (s ∷ ss) = elim (latest ss) [ none ↦ some s | some t ↦ some (if text_leb s t then t else s) ]

unfoldable pub legacy_baseline : List String → Option (List ℕ)
legacy_baseline done = latest (stamps done)

abbrev pub has : String → List String → Bool
has name names = exists_where (str_eq name) names

abbrev pub is_covered : Option (List ℕ) → String → Bool
is_covered none name = false
is_covered (some baseline) name = text_leb (stamp_of name) baseline

-- The files that count as applied, and those that are to be run.
unfoldable pub split_by : Option (List ℕ) → List String → List String → List String × List String
split_by baseline done [] = ([], [])
split_by baseline done (name ∷ names) =
    let rest = split_by baseline done names in
    if has name done
    then rest
    else if is_covered baseline name
    then (name ∷ rest.0, rest.1)
    else (rest.0, name ∷ rest.1)

unfoldable pub split_pending : List String → List String → List String × List String
unfolding split_by legacy_baseline
split_pending files done = split_by (legacy_baseline done) done files

-- INSERT under the primary key.
unfoldable pub record_name : String → Exec Schema Unit
record_name name s =
    if has name s.recorded
    then err internal
    else ok (tt, record s { recorded = s.recorded ++ name ∷ [] })

unfoldable pub record_names : List String → Exec Schema Unit
record_names [] = pure tt
record_names (name ∷ names) = do record_name name; record_names names

abbrev pub is_legacy : String → Bool
is_legacy name = exists_where (λ old. str_eq old.0 name) legacy_names

unfoldable pub adopt_legacy : List String → Exec Schema Unit
unfolding record_names
adopt_legacy adopted = do
  record_names adopted
  modify (λ s. record s { recorded = delete_where is_legacy s.recorded })

-- The first transaction of a run: what is left to do.
unfoldable pub prepare : List String → Exec Schema (List String)
unfolding split_pending adopt_legacy
prepare files s =
    let (adopted, todo) = split_pending files s.recorded in
    elim adopted [
      | [] ↦ ok (todo, s)
      | name ∷ names ↦ (do adopt_legacy (name ∷ names); pure todo) s
    ]

pub data Exit : Type 0 where
  no_files up_to_date applied raised : Exit

module _ (works : String → Bool) where
  -- The transaction of one file.
  unfoldable pub apply_file : String → Exec Schema Unit
  apply_file name = do
    raise_if (not (works name)) internal
    modify (λ s. record s { executed = s.executed ++ name ∷ [] })
    record_name name

  -- Each file in a transaction of its own, until one raises.
  unfoldable pub apply_all : List String → Schema → Schema × Exit
  apply_all [] s = (s, applied)
  apply_all (name ∷ names) s = elim (apply_file name s) [
    | ok (u, s') ↦ apply_all names s'
    | err e ↦ (s, raised)
  ]

  abbrev pub apply_todo : List String → Schema → Schema × Exit
  apply_todo [] s = (s, up_to_date)
  apply_todo (name ∷ names) s = apply_all (name ∷ names) s

  unfoldable pub run_migrations : List String → Schema → Schema × Exit
  unfolding prepare
  run_migrations [] s = (s, no_files)
  run_migrations (f ∷ files) s = elim (prepare (f ∷ files) s) [
    | err e ↦ (s, raised)
    | ok (todo, s') ↦ apply_todo todo s'
  ]

-- `--check`: whether nothing is pending.
unfoldable pub status : List String → Schema → Bool
unfolding split_pending
status files s = elim (split_pending files s.recorded).1 [ [] ↦ true | name ∷ names ↦ false ]
