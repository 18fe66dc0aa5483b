-- ===== src/Progress/Tests.antt =====
-- A session at a concrete profile.
use brainxp_server.Prelude.{arith, false, refl, true, ◌≡◌}
use brainxp_server.Prelude.Rows.{count_where, first_where}
use brainxp_server.Progress.{Outcome, new_progress}
use brainxp_server.Progress.Badges.{IsKeyed}
use brainxp_server.Progress.Session.{Recorded, record_session_lem, row_of}
use brainxp_server.Samples.{db_five}

abbrev good : Outcome
good = record {
  correct = 4;
  hard = 1;
  essay_passed = 2;
  from_photo = true;
  cross_language = false;
  perfect = false;
}

row_five : row_of 5 db_five ≡ new_progress 5
unfolding first_where
row_five = refl

nothing_owned : IsKeyed db_five.achievements
unfolding count_where
nothing_owned s code = omega arith

record_session_lem_example : Recorded 5 100 good db_five
record_session_lem_example =
    record_session_lem 5 100 good db_five
      (rw row_five (record {
        tokens_lower = omega arith;
        tokens_upper = omega arith;
        longest_bound = omega arith;
      }))
      nothing_owned
