-- ===== src/Policies/Tests.antt =====
-- The policy endpoints at a concrete profile.
use brainxp_server.Deps.{authorize_row, authorize_subject, require_policy_writer}
use brainxp_server.Ledger.{policy_of}
use brainxp_server.Policies.{IsRatios, Ratios, any_day_higher, apply_changes, is_weakening}
use brainxp_server.Policies.Handlers.{no_changes, postpone, put_change, put_policy}
use brainxp_server.Policies.Handlers.Delay.{no_loosening_for_a_day, served, untouched}
use brainxp_server.Policies.Handlers.Guarded.{IsBody}
use brainxp_server.Policies.Handlers.Held.{put, serve_policy}
use brainxp_server.Policies.Weakening.{AsksNoMore, NotLooser, is_weakening_iff}
use brainxp_server.Prelude.{arith, false, refl, some, true, ◌*◌, ◌+◌, ◌/◌, ◌↔◌, ◌≡◌}
use brainxp_server.Prelude.Exec.{outcome}
use brainxp_server.Prelude.Int.{pos}
use brainxp_server.Prelude.Rows.{first_where, update_where}
use brainxp_server.Samples.{db_five, owner, policy_five, subject_five, week_of}
use brainxp_server.Tables.{Db}
use brainxp_server.Tables.Activity.{Changes, Policy}

-- Shares in thousandths, of which the column keeps the nearest hundredth.
abbrev tenths : Ratios
tenths = record { double = λ h. 10 * h; column = λ v. (v + 5) / 10 }

tenths-IsRatios : IsRatios tenths
tenths-IsRatios = record { column_mono = λ v w h. omega arith; column-double = λ h. omega arith }

-- A doubled cap on every day.
abbrev doubled : Changes
doubled = record no_changes { daily_caps = some (week_of (pos 7200)) }

doubled-IsBody : IsBody doubled
doubled-IsBody = record {
  caps_week = λ v h. let same : week_of (pos 7200) ≡ v = cc in rw (← same) refl;
  grants_week = λ v h. cc;
  no_key = refl;
}

-- The owner asks for it.
abbrev asked : Db
asked = outcome db_five (serve_policy tenths owner 5 (put doubled doubled-IsBody) 1000 db_five)

abbrev waiting : Policy
waiting = postpone doubled (some 1) 1000 policy_five

asked-waiting : first_where (policy_of 5) asked.policies ≡ some waiting
unfolding first_where update_where put_policy put_change is_weakening any_day_higher
    require_policy_writer authorize_subject authorize_row
asked-waiting = refl

no_loosening_for_a_day_example : NotLooser policy_five waiting
no_loosening_for_a_day_example =
    no_loosening_for_a_day tenths 0 5 db_five asked subject_five policy_five waiting tenths-IsRatios
      (unfold first_where in refl) refl (unfold first_where in refl) (refl, refl) refl refl
      (served owner (put doubled doubled-IsBody) 1000 untouched (omega arith) (omega arith))
      asked-waiting

-- A fifth of essays less half a hundredth, where the row has a fifth: the column would keep the fifth,
-- and yet the body waits.
abbrev fewer_essays : Changes
fewer_essays = record no_changes { essay_ratio = some 196 }

fewer_essays_test :
    (is_weakening tenths (record policy_five { essay_ratio = 20 }) fewer_essays ≡ true)
    × ((apply_changes tenths fewer_essays policy_five).essay_ratio ≡ 20)
unfolding is_weakening apply_changes
fewer_essays_test = (refl, refl)

is_weakening_iff_example :
    (is_weakening tenths policy_five doubled ≡ false) ↔ AsksNoMore tenths policy_five doubled
is_weakening_iff_example = is_weakening_iff tenths policy_five doubled
