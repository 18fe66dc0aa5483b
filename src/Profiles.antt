-- ===== src/Profiles.antt =====
-- The rows that a new profile starts with: what `register` of app/routers/auth.py and the two endpoints
-- of app/routers/families.py that add a profile insert one after the other.
use brainxp_server.Ledger.{policy_of, progress_of}
use brainxp_server.Prelude.{
  ==_self, List, Option, String, [], arith, false, length, none, refl, some, true, ℕ, ◌++◌, ◌==◌,
  ◌∷◌, ◌≡◌,
}
use brainxp_server.Prelude.Exec.{Exec, modify, ◌>>◌}
use brainxp_server.Prelude.Int.{pos}
use brainxp_server.Prelude.Rows.{
  exists_where, exists_where-append, first_where, first_where-append, first_where-exists_where,
}
use brainxp_server.Prelude.Triple.{Post}
use brainxp_server.Progress.{ensure_row, ensure_rows, new_progress}
use brainxp_server.Tables.{Db}
use brainxp_server.Tables.Activity.{Policy, Progress}
use brainxp_server.Tables.People.{Subject}

-- The server defaults of the policies table.
abbrev pub new_policy : ℕ → String → String → Option ℕ → ℕ → Policy
new_policy subject level language user at = record {
  subject_id = subject;
  questions_per_session = pos 10;
  base_reward_seconds = pos 120;
  essay_ratio = 20;
  academic_level = level;
  question_language = language;
  daily_caps = pos 3600 ∷ pos 3600 ∷ pos 3600 ∷ pos 3600 ∷ pos 3600 ∷ pos 3600 ∷ pos 3600 ∷ [];
  daily_grants = pos 0 ∷ pos 0 ∷ pos 0 ∷ pos 0 ∷ pos 0 ∷ pos 0 ∷ pos 0 ∷ [];
  idle_days_allowed = pos 2;
  day_reset_hour = 5;
  allowed_upload_methods = "photo" ∷ "document" ∷ [];
  locked_apps = [];
  pending_weaken_at = none;
  pending_weaken_payload = none;
  updated_by = user;
  updated_at = at;
}

-- The inserts into subjects and policies, and `ensure_row`.
unfoldable pub open_profile : Subject → String → Option ℕ → ℕ → Exec Db Unit
unfolding ensure_row
open_profile s language user at = do
  modify (λ db. record db { subjects = db.subjects ++ s ∷ [] })
  modify (λ db. record db {
    policies = db.policies ++ new_policy s.id s.academic_level language user at ∷ [];
  })
  ensure_row s.id

-- A new profile has a policy for a week, whose standing can be read at once, and a row of progress.
abbrev pub IsOpen : ℕ → Db → Type 0
IsOpen subject db =
    (p : Policy) × (first_where (policy_of subject) db.policies ≡ some p)
    × (length p.daily_caps ≡ 7)
    × (length p.daily_grants ≡ 7)
    × (p.pending_weaken_at ≡ none)
    × (exists_where (progress_of subject) db.progress ≡ true)

ensured :
    (subject : ℕ) (rows : List Progress)
    → exists_where (progress_of subject) (ensure_rows subject rows) ≡ true
unfolding ensure_rows
ensured subject rows =
    let at_end : exists_where (progress_of subject) (new_progress subject ∷ []) ≡ true =
      unfold exists_where in rw (==_self subject) refl in
    ground
      (arith, exists_where-append (progress_of subject) rows (new_progress subject ∷ []), at_end)

pub open_profile-IsOpen :
    (s : Subject) (language : String) (user : Option ℕ) (at : ℕ) (db : Db)
    → exists_where (λ r. r.id == s.id) db.subjects ≡ false
    → exists_where (policy_of s.id) db.policies ≡ false
    → Post
        (λ _ db'. (first_where (λ r. r.id == s.id) db'.subjects ≡ some s) × IsOpen s.id db')
        (open_profile s language user at db)
unfolding open_profile ensure_row ensure_rows
open_profile-IsOpen s language user at db new free =
    let p = new_policy s.id s.academic_level language user at in
    (
      first_where-append (λ r. r.id == s.id) db.subjects s
          (first_where-exists_where (λ r. r.id == s.id) db.subjects new) (==_self s.id),
      (
        p,
        first_where-append (policy_of s.id) db.policies p
            (first_where-exists_where (policy_of s.id) db.policies free) (==_self s.id),
        refl,
        refl,
        refl,
        ensured s.id db.progress,
      ),
    )
