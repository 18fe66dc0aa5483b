-- ===== src/Materials/Upload.antt =====
-- `upload_material` of app/routers/materials.py, and `upload_quota_hit` of app/queue.py.
use Prim.Native.String.{◌++◌ as str_append}
use brainxp_server.Deps.{Caller, authorize_subject}
use brainxp_server.Documents.{batch_method, content_digest, guard_size}
use brainxp_server.Guardian.{decimal}
use brainxp_server.Ledger.{policy_of, standing}
use brainxp_server.Materials.{MaterialAccepted}
use brainxp_server.Prelude.{
  Bool, List, Option, String, [], false, if◌then◌else◌, is_none, length, ltb, none, not, or_else,
  some, str_eq, true, ℕ, ◌&&◌, ◌*◌, ◌++◌, ◌+◌, ◌==◌, ◌∷◌,
}
use brainxp_server.Prelude.Exec.{
  Exec, Result, err, fetch, forbidden, internal, invalid, lift, ok, pure, raise_if, rate_limited,
  ◌>>=◌, ◌>>◌,
}
use brainxp_server.Prelude.Rows.{exists_where, first_where}
use brainxp_server.Prelude.Text.{text_before}
use brainxp_server.Quizzes.{or_text}
use brainxp_server.Quizzes.Opening.{material_id_of}
use brainxp_server.RateLimit.{Counter, Window, increment}
use brainxp_server.Storage.{Store, World, change_db, on_db, put}
use brainxp_server.Tables.Activity.{Policy}
use brainxp_server.Tables.Study.{Material, StorageKey, ready, uploaded}

-- A file of the form.
pub record UploadFile (Bytes : Type 0) : Type 0 where
  pub content_type : Option String
  pub filename : Option String
  pub content : Bytes

-- The settings, and what is known of files and their formats.
pub record Formats (Bytes : Type 0) : Type 0 where
  pub store : Store
  pub max_upload_bytes : ℕ
  pub daily_upload_quota : ℕ
  pub size : Bytes → ℕ
  pub sha256 : Bytes → String
  pub joined : List String → Bytes
  pub lower : List ℕ → List ℕ
  pub photos_to_pdf : List Bytes → Result Bytes

-- What comes with a request: the verdicts of the two rate limits, the counter of the day's quota, which
-- is kept outside of the database, a new identifier, and the time.
pub record Arrival : Type 0 where
  pub within_ip : Bool
  pub within_global : Bool
  pub quota : Option Counter
  pub fresh : ℕ
  pub at : ℕ
  pub local : ℕ

abbrev pub quota_window : ℕ → Window
quota_window quota = record { limit = quota; seconds = 48 * 3600 }

unfoldable pub upload_quota_hit : ℕ → ℕ → Option Counter → ℕ
unfolding increment
upload_quota_hit quota at key = (increment (quota_window quota) at key).count

-- The first ready material of the profile with the same contents.
abbrev pub is_twin : ℕ → String → Material → Bool
is_twin subject digest m =
    m.subject_id == subject
    && str_eq m.content_sha256 digest
    && is_none m.deleted_at
    && elim m.status [ ready ↦ true | _ ↦ false ]

abbrev pub duplicate : Material → MaterialAccepted
duplicate m = record {
  material_id = m.id;
  status = ready;
  duplicate_of = some m.id;
  enqueued = false;
}

-- INSERT under the primary key.
unfoldable pub insert_material : Material → Exec World Unit
insert_material m w =
    if exists_where (material_id_of m.id) w.db.materials
    then err internal
    else change_db (λ db. record db { materials = db.materials ++ m ∷ [] }) w

abbrev pub key_of : Material → String → StorageKey
key_of m leaf = record { subject = m.subject_id; material = m.id; leaf = leaf }

unfoldable pub method_allowed : String → List String → Bool
method_allowed method methods = exists_where (str_eq method) methods

module _ {Bytes : Type 0} (form : Formats Bytes) where
  -- The file that is stored, its media type, its name, and the last part of its key.
  pub record Stored : Type 0 where
    pub content : Bytes
    pub media_type : String
    pub original_name : Option String
    pub leaf : String

  unfoldable pub types_of : List (UploadFile Bytes) → List String
  types_of [] = []
  types_of (f ∷ fs) = or_else f.content_type "" ∷ types_of fs

  unfoldable pub parts_of : List (UploadFile Bytes) → List Bytes
  parts_of [] = []
  parts_of (f ∷ fs) = f.content ∷ parts_of fs

  unfoldable pub total_size : List Bytes → ℕ
  total_size [] = 0
  total_size (p ∷ ps) = form.size p + total_size ps

  abbrev pub photos_name : UploadFile Bytes → ℕ → String
  photos_name f more =
      str_append (str_append (str_append (or_text f.filename "foto") " (+") (decimal more more))
        " foto)"

  unfoldable pub store_form : List (UploadFile Bytes) → Result Stored
  unfolding parts_of guard_size decimal
  store_form [] = err internal
  store_form (f ∷ []) = ok (record {
    content = f.content;
    media_type = or_text f.content_type "application/octet-stream";
    original_name = f.filename;
    leaf = or_text f.filename "materi";
  })
  store_form (f ∷ g ∷ fs) = elim (form.photos_to_pdf (parts_of (f ∷ g ∷ fs))) [
    | err e ↦ err e
    | ok merged ↦ elim (guard_size (form.size merged) form.max_upload_bytes) [
      | err e ↦ err e
      | ok _ ↦ ok (record {
        content = merged;
        media_type = "application/pdf";
        original_name = some (photos_name f (length (g ∷ fs)));
        leaf = "materi.pdf";
      })
    ]
  ]

  abbrev pub new_material : ℕ → ℕ → String → Policy → Stored → ℕ → Material
  new_material id subject digest pol s at = record {
    id = id;
    subject_id = subject;
    source_type = text_before b';' s.media_type;
    original_name = s.original_name;
    content_sha256 = digest;
    storage_key = some (record { subject = subject; material = id; leaf = s.leaf });
    retention_mode = "keep";
    status = uploaded;
    declared_level = some pol.academic_level;
    assessed_level = none;
    detected_language = none;
    gate_verdict = none;
    gate_reason = none;
    topic_summary = none;
    purged_at = none;
    last_studied_at = none;
    created_at = at;
    deleted_at = none;
  }

  -- The upload once nothing with the same contents is ready.
  unfoldable pub store_new :
      ℕ → String → Policy → List (UploadFile Bytes) → Arrival → Exec World MaterialAccepted
  unfolding store_form text_before insert_material
  store_new subject digest pol files a = do
    s ← lift (store_form files)
    put form.store (record { subject = subject; material = a.fresh; leaf = s.leaf })
    insert_material (new_material a.fresh subject digest pol s a.at)
    pure (record { material_id = a.fresh; status = uploaded; duplicate_of = none; enqueued = true })

  unfoldable pub accept :
      ℕ → String → Policy → List (UploadFile Bytes) → Arrival → Exec World MaterialAccepted
  unfolding store_new
  accept subject digest pol files a w = elim (first_where (is_twin subject digest) w.db.materials) [
    | some m ↦ ok (duplicate m, w)
    | none ↦ store_new subject digest pol files a w
  ]

  -- POST /subjects/{subject_id}/materials
  unfoldable pub upload_material :
      Caller → ℕ → List (UploadFile Bytes) → Arrival → Exec World MaterialAccepted
  unfolding types_of parts_of total_size method_allowed upload_quota_hit accept
  upload_material me subject files a = do
    on_db (authorize_subject me subject)
    raise_if (not a.within_ip) rate_limited
    raise_if (not a.within_global) rate_limited
    pol ← fetch (λ w. first_where (policy_of subject) w.db.policies) internal
    method ← lift (batch_method form.lower (types_of files))
    raise_if (not (method_allowed method pol.allowed_upload_methods)) forbidden
    let parts = parts_of files
    raise_if (exists_where (λ p. form.size p == 0) parts) (invalid "invalid")
    lift (guard_size (total_size parts) form.max_upload_bytes)
    on_db (standing subject a.at a.local)
    raise_if (ltb form.daily_upload_quota (upload_quota_hit form.daily_upload_quota a.at a.quota))
        rate_limited
    accept subject (content_digest form.sha256 form.joined parts) pol files a
