-- ===== src/Progress/Session.antt =====
-- What `record_session` leaves in the progress row and in the badges.
use brainxp_server.Ledger.{progress_of}
use brainxp_server.Prelude.{
  ==_iff, ==_self, Bool, List, Option-cases, [], ap, arith, inl, inr, is_some, or_else, refl, some,
  true, ℕ, ◌∙◌, ◌∷◌, ◌≡◌,
}
use brainxp_server.Prelude.Exec.{ok}
use brainxp_server.Prelude.Rows.{
  exists_where, first_where, first_where-append, first_where-update_where, first_where_test,
  map_some, update_where,
}
use brainxp_server.Progress.{
  Badge, Outcome, award, badges, ensure_row, ensure_rows, new_progress, record_session,
  streak_state, updated,
}
use brainxp_server.Progress.Badges.{
  Complete, Earned, IsKeyed, Owned, award-Complete, award-Earned, award-IsKeyed, award-Owned,
  award_keeps,
}
use brainxp_server.Rules.Calendar.{day}
use brainxp_server.Rules.Streak.{IsStreak, advance_streak-IsStreak}
use brainxp_server.Tables.{Db}
use brainxp_server.Tables.Activity.{Achievement, Progress}

-- The streak columns of a row, as their checks want them.
abbrev pub IsProgress : Progress → Type 0
IsProgress p = IsStreak (streak_state p)

pub updated-IsProgress :
    (p : Progress) (day : ℕ) (o : Outcome) → IsProgress p → IsProgress (updated p day o)
unfolding updated
updated-IsProgress p day o h =
    let t = advance_streak-IsStreak (streak_state p) day h in
    record {
      tokens_lower = t.tokens_lower;
      tokens_upper = t.tokens_upper;
      longest_bound = t.longest_bound;
    }

-- The row that a session starts from: the profile's, or a new one.
abbrev pub row_of : ℕ → Db → Progress
row_of subject db = or_else (first_where (progress_of subject) db.progress) (new_progress subject)

exists_where-first_where :
    (subject : ℕ) (rows : List Progress)
    → exists_where (progress_of subject) rows ≡ is_some (first_where (progress_of subject) rows)
unfolding exists_where first_where
exists_where-first_where subject [] = refl
exists_where-first_where subject (x ∷ rows) = ground (arith, exists_where-first_where subject rows)

first_where-ensure_rows :
    (subject : ℕ) (rows : List Progress)
    → first_where (progress_of subject) (ensure_rows subject rows)
      ≡ some (or_else (first_where (progress_of subject) rows) (new_progress subject))
unfolding ensure_rows
first_where-ensure_rows subject rows =
    elim (Option-cases (first_where (progress_of subject) rows)) [
      | inl e ↦
          rw (exists_where-first_where subject rows, e)
            (first_where-append (progress_of subject) rows (new_progress subject) e
              (==_self subject))
      | inr (p, e) ↦ rw (exists_where-first_where subject rows, e) e
    ]

row_of-subject : (subject : ℕ) (db : Db) → (row_of subject db).subject_id ≡ subject
row_of-subject subject db = elim (Option-cases (first_where (progress_of subject) db.progress)) [
  | inl e ↦ rw e refl
  | inr (p, e) ↦
      rw e
        ((==_iff p.subject_id subject).0 (first_where_test (progress_of subject) db.progress p e))
]

updated_row :
    (subject : ℕ) (rows : List Progress) (p : Progress) (day : ℕ) (o : Outcome)
    → first_where (progress_of subject) rows ≡ some p
    → first_where
        (progress_of subject)
        (update_where (progress_of subject) (λ _. updated p day o) rows)
      ≡ some (updated p day o)
unfolding updated
updated_row subject rows p day o found =
    let same = first_where_test (progress_of subject) rows p found in
    first_where-update_where (progress_of subject) (λ _. updated p day o) rows (λ x _. same)
    ∙ ap (map_some (λ _. updated p day o)) found

-- What a session leaves: the profile's row becomes the updated one; the badges that it returns were
-- earned and are now owned, as is every badge whose rule the updated row passes; nothing that was
-- owned is lost, and no badge is owned twice.
abbrev pub Recorded : ℕ → ℕ → Outcome → Db → Type 0
Recorded subject day o db =
    let row = updated (row_of subject db) day o in
    (fresh : List Badge) × (db' : Db) × (record_session subject day o db ≡ ok (fresh, db'))
    × (first_where (progress_of subject) db'.progress ≡ some row)
    × IsProgress row
    × Earned subject row db.achievements fresh
    × Owned subject db'.achievements fresh
    × Complete subject row db.achievements db'.achievements badges
    × ((q : Achievement → Bool)
        → exists_where q db.achievements ≡ true
        → exists_where q db'.achievements ≡ true)
    × IsKeyed db'.achievements

-- A session always succeeds. The profile's row, made new where there was none, becomes the updated
-- one, and a valid streak stays valid; every badge that is returned was not owned before, passes its
-- rule on the updated row and is owned afterwards; every badge whose rule the updated row passes is
-- owned afterwards; nothing that was owned is lost, and no badge is owned twice if none was.
pub record_session_lem :
    (subject day : ℕ) (o : Outcome) (db : Db)
    → IsProgress (row_of subject db)
    → IsKeyed db.achievements
    → Recorded subject day o db
unfolding record_session ensure_row
record_session_lem subject day o db valid keyed =
    let p = row_of subject db in
    let row = updated p day o in
    let rows = ensure_rows subject db.progress in
    let found = first_where-ensure_rows subject db.progress in
    let (fresh, table) = award subject row db.achievements badges db.achievements in
    let db' : Db = record db {
      progress = update_where (progress_of subject) (λ _. row) rows;
      achievements = table;
    } in
    (
      fresh,
      db',
      rw found refl,
      updated_row subject rows p day o found,
      updated-IsProgress p day o valid,
      award-Earned subject row db.achievements badges db.achievements,
      award-Owned subject row db.achievements badges db.achievements,
      award-Complete subject row db.achievements badges db.achievements (λ q h. h),
      award_keeps subject row db.achievements badges db.achievements,
      award-IsKeyed subject row db.achievements badges db.achievements keyed,
    )
