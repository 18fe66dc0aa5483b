-- ===== src/Generation/Outside.antt =====
-- What the job of app/services/generation.py reaches outside the program: the provider of models of
-- app/services/llm.py, the contents of the object store, the converter of office documents, and the
-- identifiers of new rows.
use brainxp_server.Documents.{Kind}
use brainxp_server.Generation.{GeneratedQuestion}
use brainxp_server.Prelude.{Bool, List, String, ℕ}
use brainxp_server.Prelude.Exec.{Result}
use brainxp_server.Prelude.Int.{ℤ}
use brainxp_server.Rules.Float.{Float}
use brainxp_server.Storage.{Store}
use brainxp_server.Tables.Study.{StorageKey}

module _ (F : Float) (Bytes : Type 0) where
  open F use {Number}

  pub record GateVerdict : Type 0 where
    pub is_study_material : Bool
    pub assessed_level : String
    pub concept_density : Number
    pub detected_language : String
    pub topic_summary : String

  -- A file as the provider gets it, with its media type.
  abbrev pub Attachment : Type 0
  Attachment = Bytes × List ℕ

  -- The provider of models; an error is an exception.
  pub record Provider : Type 0 where
    pub generation_model : String
    pub validate_material : Attachment → String → Result GateVerdict
    pub generate_questions : Attachment → ℤ → ℤ → String → String → Result (List GeneratedQuestion)

  -- What the job reaches outside the program.
  pub record Outside : Type 0 where
    pub store : Store
    pub contents : StorageKey → Result Bytes
    pub office_to_pdf : Bytes → Kind → Result Bytes
    pub lower : List ℕ → List ℕ
    pub likeness : String → String → Number
    pub provider : Provider
    pub fresh : ℕ → ℕ
