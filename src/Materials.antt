-- ===== src/Materials.antt =====
-- app/routers/materials.py: a material's retention and its removal, and what is shown of it. Its upload
-- is in Upload.
pub mod Upload
pub mod Filed
pub mod Kept
pub mod Added
pub mod Job
pub mod History
mod Tests
use mathlib.Core.List.{reverse}
use brainxp_server.Deps.{Caller, authorize_subject, is_proxy}
use brainxp_server.Generation.Run.{set_of, update_material}
use brainxp_server.Prelude.{
  Bool, List, Option, String, [], false, if◌then◌else◌, is_none, length, none, not, some, str_eq,
  take, true, ℕ, ◌&&◌, ◌++◌, ◌==◌, ◌∷◌,
}
use brainxp_server.Prelude.Exec.{
  Exec, fetch, forbidden, gets, not_found, ok, or_raise, raise_if, ◌>>=◌, ◌>>◌,
}
use brainxp_server.Prelude.Order.{latest_by, sort_by}
use brainxp_server.Prelude.Rows.{count_where, first_where, rows_where}
use brainxp_server.Quizzes.{answered_count, is_opened}
use brainxp_server.Quizzes.Opening.{material_id_of}
use brainxp_server.Storage.{Store, World, change_db, delete, on_db}
use brainxp_server.Tables.{Db}
use brainxp_server.Tables.Activity.{AuditEntry, no_payload, on_id}
use brainxp_server.Tables.Study.{
  Material, MaterialStatus, Question, QuizSession, StorageKey, generating, ready,
}

pub record MaterialAccepted : Type 0 where
  pub material_id : ℕ
  pub status : MaterialStatus
  pub duplicate_of : Option ℕ
  -- whether a job is queued once the request is over
  pub enqueued : Bool

pub record Unfinished : Type 0 where
  pub session_id : ℕ
  pub answered : ℕ
  pub total : ℕ

pub record MaterialOut : Type 0 where
  pub material : Material
  pub times_studied : ℕ
  pub question_count : ℕ
  pub unfinished : Option Unfinished

-- A row of `quiz_sessions` joined to its set.
abbrev pub on_material : ℕ → Db → QuizSession → Bool
on_material material db s = elim (first_where (set_of s.question_set_id) db.question_sets) [
  | none ↦ false
  | some q ↦ q.material_id == material
]

unfoldable pub unfinished : ℕ → Db → Option Unfinished
unfinished material db =
    elim (latest_by (λ s. s.started_at)
      (rows_where (λ s. on_material material db s && is_opened s) db.quiz_sessions)) [
        | none ↦ none
        | some s ↦ some (record {
          session_id = s.id;
          answered = answered_count s.id db;
          total = length s.question_order;
        })
      ]

abbrev pub question_of : ℕ → Db → Question → Bool
question_of material db q = elim (first_where (set_of q.question_set_id) db.question_sets) [
  | none ↦ false
  | some s ↦ s.material_id == material
]

abbrev pub hide_topic : Bool → Material → Material
hide_topic hidden m = if hidden then record m { topic_summary = none } else m

unfoldable pub material_out : Bool → Material → Db → MaterialOut
unfolding unfinished
material_out hidden m db = record {
  material = hide_topic hidden m;
  times_studied = count_where (λ s. on_material m.id db s && not (is_opened s)) db.quiz_sessions;
  question_count = count_where (question_of m.id db) db.questions;
  unfinished = unfinished m.id db;
}

-- `if not row or row["deleted_at"]`
abbrev pub find_live : ℕ → Db → Option Material
find_live id db = elim (first_where (material_id_of id) db.materials) [
  | none ↦ none
  | some m ↦ if is_none m.deleted_at then some m else none
]

-- GET /materials/{material_id}
unfoldable pub get_material : Caller → ℕ → Exec Db MaterialOut
unfolding material_out
get_material me id = do
  row ← fetch (find_live id) not_found
  subject ← authorize_subject me row.subject_id
  gets (material_out (is_proxy me subject) row)

abbrev pub library_limit : ℕ
library_limit = 100

abbrev pub is_listed : ℕ → Material → Bool
is_listed subject m =
    m.subject_id == subject
    && is_none m.deleted_at
    && elim m.status [ ready ↦ true | generating ↦ true | _ ↦ false ]

unfoldable pub material_outs : Bool → List Material → Db → List MaterialOut
unfolding material_out
material_outs hidden [] db = []
material_outs hidden (m ∷ ms) db = material_out hidden m db ∷ material_outs hidden ms db

-- GET /subjects/{subject_id}/library
unfoldable pub library : Caller → ℕ → Exec Db (List MaterialOut)
unfolding material_outs
library me subject = do
  row ← authorize_subject me subject
  (λ db.
      gets
        (material_outs (is_proxy me row) (
          take library_limit
            (reverse (sort_by (λ m. m.created_at) (rows_where (is_listed subject) db.materials)))))
        db)

-- GET /materials/{material_id}/file, up to the signing of the address
unfoldable pub material_file : Caller → ℕ → Exec Db StorageKey
material_file me id = do
  row ← fetch (find_live id) not_found
  subject ← authorize_subject me row.subject_id
  raise_if (is_proxy me subject) forbidden
  or_raise row.storage_key not_found

abbrev pub retained : String → Material → Material
retained mode m = record m { retention_mode = mode }

abbrev pub purged : ℕ → Material → Material
purged at m = record m { retention_mode = "auto_purge"; storage_key = none; purged_at = some at }

abbrev pub as_deleted : ℕ → Material → Material
as_deleted at m = record m { deleted_at = some at; storage_key = none; purged_at = some at }

abbrev pub removal_audit : Caller → ℕ → AuditEntry
removal_audit me id = record {
  actor_user_id = me.user_id;
  action = "material_deleted";
  target = on_id id;
  payload = no_payload;
}

module _ (store : Store) where
  -- What a new mode of retention does to a material and its file.
  unfoldable pub apply_retention : Material → String → ℕ → Exec World Unit
  apply_retention row mode at = elim row.storage_key [
    | none ↦ update_material row.id (retained mode)
    | some key ↦ elim (str_eq mode "auto_purge") [
      | true ↦ do delete store key; update_material row.id (purged at)
      | false ↦ update_material row.id (retained mode)
    ]
  ]

  -- PATCH /materials/{material_id}/retention
  unfoldable pub set_retention : Caller → ℕ → String → ℕ → Exec World MaterialOut
  unfolding apply_retention
  set_retention me id mode at = do
    row ← fetch (λ w. find_live id w.db) not_found
    subject ← on_db (authorize_subject me row.subject_id)
    raise_if (is_proxy me subject) forbidden
    apply_retention row mode at
    on_db (get_material me id)

  -- The file of a material, if it has one.
  unfoldable pub delete_file : Option StorageKey → Exec World Unit
  delete_file none w = ok (tt, w)
  delete_file (some key) w = delete store key w

  -- DELETE /materials/{material_id}
  unfoldable pub delete_material : Caller → ℕ → ℕ → Exec World Unit
  unfolding delete_file
  delete_material me id at = do
    row ← fetch (λ w. first_where (material_id_of id) w.db.materials) not_found
    subject ← on_db (authorize_subject me row.subject_id)
    raise_if (is_proxy me subject) forbidden
    delete_file row.storage_key
    update_material id (as_deleted at)
    change_db (λ db. record db { audit_log = db.audit_log ++ removal_audit me id ∷ [] })
