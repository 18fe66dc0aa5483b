-- ===== src/Samples/Study.antt =====
-- A material with what a job on it reaches, and an upload.
use brainxp_server.Generation.{GeneratedQuestion}
use brainxp_server.Generation.Outside.{Outside, Provider}
use brainxp_server.Materials.Upload.{Arrival, Formats, UploadFile}
use brainxp_server.Prelude.{
  List, String, [], if◌then◌else◌, length, none, some, str_eq, true, ℕ, ◌+◌, ◌∷◌,
}
use brainxp_server.Prelude.Exec.{err, internal, ok}
use brainxp_server.Prelude.Int.{pos}
use brainxp_server.Prelude.Text.{codes}
use brainxp_server.Rules.Float.{thousandths}
use brainxp_server.Samples.{db_five, policy_five}
use brainxp_server.Storage.{Store, World}
use brainxp_server.Tables.Study.{Material, uploaded}

abbrev pub plain : List ℕ → List ℕ
plain s = s

-- Texts are alike when they are the same.
abbrev pub sameness : String → String → ℕ
sameness a b = if str_eq a b then 1000 else 0

abbrev pub written : GeneratedQuestion
written = record {
  qtype = "mcq";
  stem = "Apa hasil fotosintesis?";
  options = some ("air" ∷ "oksigen" ∷ "tanah" ∷ "api" ∷ []);
  correct_index = some (pos 1);
  rubric = none;
  reference_answer = none;
  source_excerpt = "menghasilkan oksigen";
  explanation = "Oksigen dilepas.";
  difficulty = "sedang";
  bloom_level = "apply";
}

-- Three options, and the same stem.
abbrev pub short : GeneratedQuestion
short = record written { options = some ("air" ∷ "oksigen" ∷ "tanah" ∷ []) }

-- An object store that always answers.
abbrev pub open_store : Store
open_store = record { enabled = true; puts = λ key. true; deletes = λ key. true }

abbrev pub stub_model : Provider thousandths String
stub_model = record {
  generation_model = "stub";
  validate_material = λ att level. ok (record {
    is_study_material = true;
    assessed_level = level;
    concept_density = 550;
    detected_language = "id";
    topic_summary = "Fotosintesis";
  });
  generate_questions = λ att want essays level language. ok (short ∷ written ∷ written ∷ []);
}

abbrev pub outside : Outside thousandths String
outside = record {
  store = open_store;
  contents = λ key. ok "isi";
  office_to_pdf = λ raw kind. err internal;
  lower = plain;
  likeness = sameness;
  provider = stub_model;
  fresh = λ n. n + 11;
}

abbrev pub uploaded_two : Material
uploaded_two = record {
  id = 2;
  subject_id = 5;
  source_type = "application/pdf";
  original_name = some "catatan.pdf";
  content_sha256 = "abc";
  storage_key = some (record { subject = 5; material = 2; leaf = "catatan.pdf" });
  retention_mode = "keep";
  status = uploaded;
  declared_level = some "smp";
  assessed_level = none;
  detected_language = none;
  gate_verdict = none;
  gate_reason = none;
  topic_summary = none;
  purged_at = none;
  last_studied_at = none;
  created_at = 1;
  deleted_at = none;
}

abbrev pub world_two : World
world_two = record {
  db = record db_five { materials = uploaded_two ∷ [] };
  stored = record { subject = 5; material = 2; leaf = "catatan.pdf" } ∷ [];
  published = [];
}

abbrev pub formats : Formats String
formats = record {
  store = open_store;
  max_upload_bytes = 1000;
  daily_upload_quota = 20;
  size = λ s. length (codes s);
  sha256 = λ s. s;
  joined = λ ss. "gabungan";
  lower = plain;
  photos_to_pdf = λ photos. ok "pdf";
}

abbrev pub notes : UploadFile String
notes = record {
  content_type = some "application/pdf";
  filename = some "catatan.pdf";
  content = "isi";
}

abbrev pub arrival_two : Arrival
arrival_two = record {
  within_ip = true;
  within_global = true;
  quota = none;
  fresh = 2;
  at = 1;
  local = 1;
}

-- Nothing is uploaded, and documents may be.
abbrev pub empty_world : World
empty_world = record {
  db = record db_five {
    policies = record policy_five { allowed_upload_methods = "document" ∷ [] } ∷ [];
  };
  stored = [];
  published = [];
}
