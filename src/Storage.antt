-- ===== src/Storage.antt =====
-- What a request or a job reaches besides the database: the objects of app/services/storage.py, as the
-- list of their keys, and the messages of `publish` in app/services/generation.py, the newest first.
-- Whether the object store is configured and which of its calls succeed is a parameter; a call that fails
-- is taken to have changed nothing. An error carries neither objects nor messages: what a job published
-- before it raised is left out, and so is the file of an upload whose random identifier is taken.
use brainxp_server.Prelude.{
  Bool, Bool-cases, List, Option, false, if◌then◌else◌, inl, inr, not, refl, str_eq, true, ℕ, ◌&&◌,
  ◌==◌, ◌∷◌, ◌≡◌, ◌⊎◌,
}
use brainxp_server.Prelude.Exec.{Exec, Result, err, internal, ok}
use brainxp_server.Prelude.Rows.{delete_where}
use brainxp_server.Rules.Gate.{RejectReason}
use brainxp_server.Tables.{Db}
use brainxp_server.Tables.Study.{StorageKey}

-- The stages that are published about a material.
pub data Stage : Type 0 where
  at_reading at_validating at_failed : Stage
  at_rejected : Option RejectReason → Stage
  at_partial : ℕ → Stage
  at_ready : ℕ → Bool → Stage

pub record World : Type 0 where
  pub db : Db
  pub stored : List StorageKey
  pub published : List (ℕ × Stage)

-- Code over the database, as code over the world.
abbrev pub keep_rest : {A : Type 0} → World → Result (A × Db) → Result (A × World)
keep_rest w (ok (a, db)) = ok (a, record w { db = db })
keep_rest w (err e) = err e

abbrev pub on_db : {A : Type 0} → Exec Db A → Exec World A
on_db m w = keep_rest w (m w.db)

abbrev pub change_db : (Db → Db) → Exec World Unit
change_db f w = ok (tt, record w { db = f w.db })

unfoldable pub publish : ℕ → Stage → Exec World Unit
publish material stage w = ok (tt, record w { published = (material, stage) ∷ w.published })

abbrev pub same_key : StorageKey → StorageKey → Bool
same_key a b = a.subject == b.subject && a.material == b.material && str_eq a.leaf b.leaf

-- The object store, and whether its calls succeed.
pub record Store : Type 0 where
  pub enabled : Bool
  pub puts : StorageKey → Bool
  pub deletes : StorageKey → Bool

abbrev pub with_stored : List StorageKey → World → Result (Unit {0} × World)
with_stored keys w = ok (tt, record w { stored = keys })

module _ (store : Store) where
  unfoldable pub put : StorageKey → Exec World Unit
  put key w =
      if not store.enabled
      then ok (tt, w)
      else if store.puts key
      then with_stored (key ∷ delete_where (same_key key) w.stored) w
      else err internal

  unfoldable pub delete : StorageKey → Exec World Unit
  delete key w =
      if not store.enabled
      then ok (tt, w)
      else if store.deletes key
      then with_stored (delete_where (same_key key) w.stored) w
      else err internal

-- Deleting a file leaves some keys, or fails.
pub delete_cases :
    (store : Store) (key : StorageKey) (w : World)
    → ((left : List StorageKey) × (delete store key w ≡ with_stored left w))
      ⊎ ((store.enabled ≡ true) × (store.deletes key ≡ false) × (delete store key w ≡ err internal))
unfolding delete
delete_cases store key w = elim (Bool-cases store.enabled) [
  | inr off ↦ inl (w.stored, simp off refl)
  | inl on ↦ elim (Bool-cases (store.deletes key)) [
    | inl d ↦ inl (delete_where (same_key key) w.stored, simp (on, d) refl)
    | inr d ↦ inr (on, d, simp (on, d) refl)
  ]
]
