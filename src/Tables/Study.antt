-- ===== src/Tables/Study.antt =====
-- The rows of app/tables.py about what is studied: materials, the questions made of them, and the
-- sessions with their answers. A column NUMERIC(p, 2) is in hundredths. Columns that only describe a
-- file are left out, and so is the weight of a criterion, which only the provider of models reads.
use brainxp_server.Prelude.{Bool, List, Option, String, ℕ}
use brainxp_server.Prelude.Int.{ℤ}

pub data MaterialStatus : Type 0 where
  uploaded validating rejected generating ready failed : MaterialStatus

-- The text f"{subject_id}/{material_id}/{leaf}", whose first two parts have a fixed length.
pub record StorageKey : Type 0 where
  pub subject : ℕ
  pub material : ℕ
  pub leaf : String

pub record Material : Type 0 where
  pub id : ℕ
  pub subject_id : ℕ
  pub source_type : String
  pub original_name : Option String
  pub content_sha256 : String
  pub storage_key : Option StorageKey
  pub retention_mode : String
  pub status : MaterialStatus
  pub declared_level : Option String
  pub assessed_level : Option String
  pub detected_language : Option String
  pub gate_verdict : Option String
  pub gate_reason : Option String
  pub topic_summary : Option String
  pub purged_at : Option ℕ
  pub last_studied_at : Option ℕ
  pub created_at : ℕ
  pub deleted_at : Option ℕ

pub record QuestionSet : Type 0 where
  pub id : ℕ
  pub material_id : ℕ
  pub model_id : String
  pub requested_count : ℤ
  pub ready_count : ℕ
  pub status : String
  pub generated_at : ℕ

pub record Criterion : Type 0 where
  pub criterion : String
  pub indicator : String

pub record Question : Type 0 where
  pub id : ℕ
  pub question_set_id : ℕ
  pub ordinal : ℕ
  pub qtype : String
  pub stem : String
  pub options : Option (List String)
  pub correct_index : Option ℕ
  pub rubric : Option (List Criterion)
  pub reference_answer : Option String
  pub source_excerpt : String
  pub explanation : Option String
  pub difficulty : String
  pub bloom_level : String

pub data SessionStatus : Type 0 where
  opened submitted : SessionStatus

-- `option_permutation` is the object of lists by question.
pub record QuizSession : Type 0 where
  pub id : ℕ
  pub subject_id : ℕ
  pub question_set_id : ℕ
  pub question_order : List ℕ
  pub option_permutation : List (ℕ × List ℕ)
  pub level_factor : ℕ
  pub novelty_factor : ℕ
  pub base_reward_seconds : ℕ
  pub correct_count : Option ℕ
  pub reward_seconds : Option ℤ
  pub is_replay : Bool
  pub status : SessionStatus
  pub started_at : ℕ
  pub submitted_at : Option ℕ

pub record QuizAnswer : Type 0 where
  pub session_id : ℕ
  pub question_id : ℕ
  pub chosen_index : Option ℕ
  pub essay_text : Option String
  pub score : Option ℕ
  pub is_correct : Option Bool
  pub reward_seconds : Option ℕ
  pub injection_flag : Bool
  pub answered_at : ℕ
