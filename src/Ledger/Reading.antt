-- ===== src/Ledger/Reading.antt =====
-- `standing` of app/services/ledger.py: what it returns, and what it keeps.
use brainxp_server.Ledger.{
  Standing, balance, grant_today, last_study_of, policy_of, read_standing, spent_on, spent_today,
  standing, standing_under,
}
use brainxp_server.Prelude.{Option, refl, some, sym, ℕ, ◌∙◌, ◌≡◌}
use brainxp_server.Prelude.Exec.{internal}
use brainxp_server.Prelude.Int.{ℤ}
use brainxp_server.Prelude.Rows.{first_where}
use brainxp_server.Prelude.Triple.{Post-map, Triple, Triple-bind, Triple-read}
use brainxp_server.Rules.Calendar.{cap_for, day_key, grant_for, locked_by_idle}
use brainxp_server.Rules.Play.{playable_seconds}
use brainxp_server.Tables.{Db}
use brainxp_server.Tables.Activity.{Policy}

abbrev pub HasPolicy : ℕ → Policy → Db → Type 0
HasPolicy subject pol db = first_where (policy_of subject) db.policies ≡ some pol

-- What `standing` returns is what the database holds when it returns.
abbrev pub IsRead : ℕ → Policy → ℕ → Standing → Db → Type 0
IsRead subject pol local st db =
    (st.balance ≡ balance subject db)
    × (st.spent_today ≡ spent_on subject st.day db.daily_usage)
    × (st.playable
        ≡ playable_seconds st.balance st.daily_cap st.spent_today
            (locked_by_idle (last_study_of subject db) st.day pol.idle_days_allowed))
    × (st.day ≡ day_key local pol.day_reset_hour)
    × (cap_for st.day pol.daily_caps ≡ some st.daily_cap)

module _ (P : Db → Type 0) (subject : ℕ) (at local : ℕ)
    (keeps : (day : ℕ) (seconds : ℤ) → Triple P (grant_today subject day seconds at) (λ _. P)) where
  -- A property that the daily grant keeps is kept once the policy is found.
  pub standing_under-IsRead :
      (pol : Policy)
      → Triple P
          (standing_under subject at local pol)
          (λ st db. P db × IsRead subject pol local st db)
  unfolding standing_under read_standing spent_today
  standing_under-IsRead pol =
      let today = day_key local pol.day_reset_hour in
      Triple-read P (λ _. grant_for today pol.daily_grants) internal _ _
        (λ grant db granted h.
          Triple-bind P (grant_today subject today grant at) _ (λ _. P) _ (keeps today grant)
            (λ _.
              Triple-read P (λ _. cap_for today pol.daily_caps) internal _ _
                (λ cap db' capped h'. (h', (refl, refl, refl, refl, capped))))
            db h)

  -- A property that the daily grant keeps is kept by `standing`, which reads its figures off the
  -- database that it leaves.
  pub standing-IsRead :
      (pol : Policy)
      → Triple
          (λ db. P db × HasPolicy subject pol db)
          (standing subject at local)
          (λ st db. P db × IsRead subject pol local st db)
  unfolding standing
  standing-IsRead pol =
      Triple-read (λ db. P db × HasPolicy subject pol db)
        (λ db. first_where (policy_of subject) db.policies) internal
        (standing_under subject at local) _
        (λ pol' db found h.
          let both : ◌≡◌ {A = Option Policy} (some pol') (some pol) = sym found ∙ h.1 in
          let same : pol' ≡ pol = cc in rw same (standing_under-IsRead pol db h.0))

  -- The same for whatever policy is found.
  pub standing_keeps :
      Triple P
        (standing subject at local)
        (λ st db. P db × (pol : Policy) × IsRead subject pol local st db)
  unfolding standing
  standing_keeps =
      Triple-read P (λ db. first_where (policy_of subject) db.policies) internal
        (standing_under subject at local) _
        (λ pol db found h.
          Post-map _ _ (standing_under subject at local pol db) (λ st db' r. (r.0, pol, r.1))
            (standing_under-IsRead pol db h))
