-- ===== src/Generation/Seen.antt =====
-- How often a profile has seen what a material is about, for the gate of app/services/generation.py.
use mathlib.Core.List.{reverse}
use brainxp_server.Generation.Outside.{Outside}
use brainxp_server.Prelude.{
  Bool, String, false, if◌then◌else◌, is_none, is_some, none, not, or_else, some, str_eq, take, ℕ,
  ◌&&◌, ◌==◌,
}
use brainxp_server.Prelude.Order.{sort_by}
use brainxp_server.Prelude.Rows.{count_where, first_where, rows_where}
use brainxp_server.Quizzes.{is_opened}
use brainxp_server.Quizzes.Opening.{material_id_of}
use brainxp_server.Rules.Float.{Float}
use brainxp_server.Tables.{Db}
use brainxp_server.Tables.Study.{Material, QuizSession}

-- The set of a session, and the material of that set.
abbrev pub studies : String → Db → QuizSession → Bool
studies hash db s = elim (first_where (λ q. q.id == s.question_set_id) db.question_sets) [
  | none ↦ false
  | some q ↦ elim (first_where (material_id_of q.material_id) db.materials) [
    | none ↦ false
    | some m ↦ str_eq m.content_sha256 hash
  ]
]

unfoldable pub times_studied : ℕ → String → Db → ℕ
times_studied subject hash db =
    count_where (λ s. s.subject_id == subject && not (is_opened s) && studies hash db s)
      db.quiz_sessions

abbrev pub recent_topics : ℕ
recent_topics = 40

abbrev pub has_topic : ℕ → ℕ → Material → Bool
has_topic subject exclude m =
    m.subject_id == subject
    && not (m.id == exclude)
    && is_none m.deleted_at
    && is_some m.topic_summary

module _ (F : Float) (Bytes : Type 0) (out : Outside F Bytes) where
  open F use {ratio, lt}

  unfoldable pub near_duplicate_penalty : ℕ → String → ℕ → Db → ℕ
  near_duplicate_penalty subject topic exclude db =
      let rows = take recent_topics (
        reverse
          (sort_by (λ m. m.created_at) (rows_where (has_topic subject exclude) db.materials))) in
      if str_eq topic ""
      then 0
      else count_where
          (λ m. not (lt (out.likeness topic (or_else m.topic_summary "")) (ratio 82 100))) rows
