-- ===== src/Progress.antt =====
-- app/services/progress.py: what a study session does to the streak, the totals and the badges.
pub mod Badges
pub mod Session
mod Tests
use brainxp_server.Ledger.{progress_of}
use brainxp_server.Prelude.{
  Bool, List, String, [], if◌then◌else◌, leb, none, not, str_eq, ℕ, ◌&&◌, ◌++◌, ◌+◌, ◌==◌, ◌∷◌,
}
use brainxp_server.Prelude.Exec.{Exec, internal, modify, ok, or_raise, ◌>>=◌, ◌>>◌}
use brainxp_server.Prelude.Int.{pos}
use brainxp_server.Prelude.Rows.{exists_where, first_where, update_where}
use brainxp_server.Prelude.Text.{before}
use brainxp_server.Rules.Calendar.{day}
use brainxp_server.Rules.Streak.{StreakState, advance_streak}
use brainxp_server.Tables.{Db}
use brainxp_server.Tables.Activity.{Achievement, Progress}

pub record Badge : Type 0 where
  pub code : String
  pub name : String
  pub hint : String

abbrev badge : String → String → String → Badge
badge code name hint = record { code = code; name = name; hint = hint }

-- BADGES
abbrev pub badges : List Badge
badges =
    badge "first" "Langkah Pertama" "Menyelesaikan sesi pertama"
    ∷ badge "week" "Sepekan Penuh" "Streak 7 hari"
    ∷ badge "month" "Sebulan Penuh" "Streak 30 hari"
    ∷ badge "hundred" "Seratus Hari" "Streak 100 hari"
    ∷ badge "fifty" "Lima Puluh" "50 soal dijawab benar"
    ∷ badge "five_hundred" "Lima Ratus" "500 soal dijawab benar"
    ∷ badge "essay" "Penakluk Esai" "10 esai lolos ambang"
    ∷ badge "hard" "Penantang" "25 soal sulit dijawab benar"
    ∷ badge "photo" "Juru Foto" "Materi pertama dari kamera"
    ∷ badge "cross" "Lintas Bahasa" "Materi asing menghasilkan soal bahasa lain"
    ∷ badge "perfect" "Nirsalah" "Satu sesi tanpa satu pun salah"
    ∷ []

-- _RULES; every code of `badges` is a key.
unfoldable pub rules : String → Progress → Bool
rules code p =
    if str_eq code "first"
    then leb 1 p.sessions
    else if str_eq code "week"
    then leb 7 p.streak_current
    else if str_eq code "month"
    then leb 30 p.streak_current
    else if str_eq code "hundred"
    then leb 100 p.streak_current
    else if str_eq code "fifty"
    then leb 50 p.correct_total
    else if str_eq code "five_hundred"
    then leb 500 p.correct_total
    else if str_eq code "essay"
    then leb 10 p.essay_passed
    else if str_eq code "hard"
    then leb 25 p.hard_total
    else if str_eq code "photo"
    then leb 1 p.photo_total
    else if str_eq code "cross"
    then leb 1 p.cross_lang
    else str_eq code "perfect" && leb 1 p.perfect_total

-- The server defaults of a new row.
abbrev pub new_progress : ℕ → Progress
new_progress subject = record {
  subject_id = subject;
  streak_current = 0;
  streak_longest = 0;
  freeze_tokens = pos 0;
  last_study_day = none;
  sessions = 0;
  correct_total = 0;
  hard_total = 0;
  essay_passed = 0;
  photo_total = 0;
  cross_lang = 0;
  perfect_total = 0;
}

unfoldable pub ensure_rows : ℕ → List Progress → List Progress
ensure_rows subject rows =
    if exists_where (progress_of subject) rows then rows else rows ++ new_progress subject ∷ []

unfoldable pub ensure_row : ℕ → Exec Db Unit
unfolding ensure_rows
ensure_row subject = modify (λ db. record db { progress = ensure_rows subject db.progress })

-- What `submit` reports of a session.
pub record Outcome : Type 0 where
  pub correct : ℕ
  pub hard : ℕ
  pub essay_passed : ℕ
  pub from_photo : Bool
  pub cross_language : Bool
  pub perfect : Bool

abbrev pub streak_state : Progress → StreakState
streak_state p = record {
  current = p.streak_current;
  longest = p.streak_longest;
  freeze_tokens = p.freeze_tokens;
  last_study_day = p.last_study_day;
}

abbrev pub one_if : Bool → ℕ
one_if b = if b then 1 else 0

-- The row `updated` of `record_session`.
unfoldable pub updated : Progress → ℕ → Outcome → Progress
updated row day o =
    let st = advance_streak (streak_state row) day in
    record {
      subject_id = row.subject_id;
      streak_current = st.current;
      streak_longest = st.longest;
      freeze_tokens = st.freeze_tokens;
      last_study_day = st.last_study_day;
      sessions = row.sessions + 1;
      correct_total = row.correct_total + o.correct;
      hard_total = row.hard_total + o.hard;
      essay_passed = row.essay_passed + o.essay_passed;
      photo_total = row.photo_total + one_if o.from_photo;
      cross_lang = row.cross_lang + one_if o.cross_language;
      perfect_total = row.perfect_total + one_if o.perfect;
    }

abbrev pub has_badge : ℕ → String → Achievement → Bool
has_badge subject code a = a.subject_id == subject && str_eq a.badge_code code

-- One turn of the loop over the badges: whether the badge is fresh, and the table after the insert,
-- which does nothing on a conflict. `before` is what was owned ahead of the loop.
unfoldable pub award_one :
    ℕ → Progress → List Achievement → Badge → List Achievement → Bool × List Achievement
award_one subject snapshot before b table =
    let grants = not (exists_where (has_badge subject b.code) before) && rules b.code snapshot in
    let row : Achievement = record { subject_id = subject; badge_code = b.code } in
    (
      grants,
      if grants && not (exists_where (has_badge subject b.code) table)
          then table ++ row ∷ []
          else table,
    )

unfoldable pub award :
    ℕ → Progress → List Achievement → List Badge → List Achievement → List Badge × List Achievement
award subject snapshot before [] table = ([], table)
award subject snapshot before (b ∷ bs) table =
    let (grants, table') = award_one subject snapshot before b table in
    let (fresh, final) = award subject snapshot before bs table' in
    (if grants then b ∷ fresh else fresh, final)

unfoldable pub record_session : ℕ → ℕ → Outcome → Exec Db (List Badge)
unfolding ensure_row award
record_session subject day o = do
  ensure_row subject
  row ← (λ db. or_raise (first_where (progress_of subject) db.progress) internal db)
  let snapshot = updated row day o
  modify (λ db. record db {
    progress = update_where (progress_of subject) (λ p. updated row day o) db.progress;
  })
  (λ db.
      let (fresh, table) = award subject snapshot db.achievements badges db.achievements in
      ok (fresh, record db { achievements = table }))
