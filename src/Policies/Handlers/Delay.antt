-- ===== src/Policies/Handlers/Delay.antt =====
-- The day that a personal profile waits before its rules get looser.
use mathlib.Core.Path.{subst}
use brainxp_server.Deps.{Caller}
use brainxp_server.Generation.Run.{run}
use brainxp_server.Ledger.{policy_of}
use brainxp_server.Policies.{IsRatios, Ratios, weaken_delay}
use brainxp_server.Policies.Handlers.{PolicyChangeOut, is_personal}
use brainxp_server.Policies.Handlers.Guarded.{Guarded, IsWeek}
use brainxp_server.Policies.Handlers.Held.{Held, PolicyRequest, serve_policy}
use brainxp_server.Policies.Handlers.Kept.{serve-Held}
use brainxp_server.Policies.Weakening.{AllIn-refl, DaysWithin-refl, NotLooser}
use brainxp_server.Prelude.{arith, none, refl, some, true, ℕ, ◌+◌, ◌<◌, ◌==◌, ◌≡◌, ◌≤◌}
use brainxp_server.Prelude.Exec.{Result, err, ok, outcome}
use brainxp_server.Prelude.Rows.{first_where}
use brainxp_server.Prelude.Text.{before}
use brainxp_server.Prelude.Triple.{Post}
use brainxp_server.Rules.Calendar.{week}
use brainxp_server.Tables.{Db}
use brainxp_server.Tables.Activity.{Policy}
use brainxp_server.Tables.People.{Subject}

outcome-Held :
    (start : Policy) (since subject : ℕ) (r : Result (PolicyChangeOut × Db)) (db : Db)
    → Held start since subject db
    → Post (λ _. Held start since subject) r
    → Held start since subject (outcome db r)
outcome-Held start since subject (ok (a, db')) db h q = q
outcome-Held start since subject (err e) db h q = h

-- The databases that requests on a profile's policy, all within a day of `since`, lead to.
pub data Within (R : Ratios) (since subject : ℕ) (db : Db) : Db → Type 0 where
  untouched : Within R since subject db db
  served :
      {db' : Db} (me : Caller) (r : PolicyRequest) (at : ℕ)
      → Within R since subject db db'
      → since ≤ at
      → at < since + weaken_delay
      → Within R since subject db (outcome db' (serve_policy R me subject r at db'))

Within-Held :
    (R : Ratios) (law : IsRatios R) (start : Policy) (since subject : ℕ) (db db' : Db)
    → Held start since subject db
    → Within R since subject db db'
    → Held start since subject db'
Within-Held R law start since subject db db' h untouched = h
Within-Held R law start since subject db db' h (served {db' = d} me r at before from to) =
    let k = Within-Held R law start since subject db d h before in
    outcome-Held start since subject (serve_policy R me subject r at d) d k
      (serve-Held R law start since subject at from me r to d k)

NotLooser-refl : (p : Policy) → NotLooser p p
NotLooser-refl p = record {
  reward = omega arith;
  idle = omega arith;
  questions = omega arith;
  caps = DaysWithin-refl p.daily_caps;
  grants = DaysWithin-refl p.daily_grants;
  apps = AllIn-refl p.locked_apps;
  essays = omega arith;
}

-- Take a column that rounds a share of essays to the nearest hundredth, and a personal profile whose
-- policy row, at a moment, is a week's and has no request waiting.
-- Whatever policy endpoints anyone calls on it in the 24 hours that follow, in any order and with any
-- bodies that the schema accepts, the row that is found afterwards allows nothing more than the row
-- did at that moment: its rewards, idle days, caps and grants are no higher, its questions and share
-- of essays no lower, and every app that was locked still is.
pub no_loosening_for_a_day :
    (R : Ratios) (since subject : ℕ) (db db' : Db) (profile : Subject) (start p : Policy)
    → IsRatios R
    → first_where (λ r. r.id == subject) db.subjects ≡ some profile
    → is_personal profile ≡ true
    → first_where (policy_of subject) db.policies ≡ some start
    → IsWeek start
    → start.pending_weaken_at ≡ none
    → start.pending_weaken_payload ≡ none
    → Within R since subject db db'
    → first_where (policy_of subject) db'.policies ≡ some p
    → NotLooser start p
no_loosening_for_a_day R since subject db db' profile start p law there own found week free empty
      run found' =
    let begin : Held start since subject db = (
      λ s there'.
          let same : profile ≡ s = cc (there, there') in subst (λ x. is_personal x ≡ true) same own,
      λ q first.
          let same : start ≡ q = cc (found, first) in
          subst (Guarded start since) same (record {
            start_week = week;
            week = week;
            tight = NotLooser-refl start;
            waits = λ due h. cc;
            no_undo = rw empty refl;
          }),
    ) in
    ((Within-Held R law start since subject db db' begin run).1 p found').tight
