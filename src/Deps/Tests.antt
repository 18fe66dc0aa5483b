-- ===== src/Deps/Tests.antt =====
-- Access to a concrete profile.
use brainxp_server.Deps.{authorize_row, authorize_subject}
use brainxp_server.Deps.Access.{MayTouch, authorize_subject_iff}
use brainxp_server.Prelude.{refl, ◌≡◌}
use brainxp_server.Prelude.Exec.{ok}
use brainxp_server.Prelude.Rows.{first_where}
use brainxp_server.Prelude.Triple.{Post}
use brainxp_server.Samples.{db_five, owner, subject_five}
use brainxp_server.Tables.People.{Subject}

authorize_subject_iff_example :
    Post
      (λ row db'. (db' ≡ db_five) × MayTouch owner 5 row db_five)
      (authorize_subject owner 5 db_five)
    × ((row : Subject)
        → MayTouch owner 5 row db_five
        → authorize_subject owner 5 db_five ≡ ok (row, db_five))
authorize_subject_iff_example = authorize_subject_iff owner 5 db_five

authorize_subject_test : authorize_subject owner 5 db_five ≡ ok (subject_five, db_five)
unfolding authorize_subject authorize_row first_where
authorize_subject_test = refl
