-- ===== src/Lib.antt =====
-- BrainXP's server gives a child, or a grown-up of their own will, time to play in return for study.
-- This library models the part of it that decides, in app/services and app/routers: who may touch a
-- profile, how its time is earned, granted, spent and capped, how its rules may get looser, how its
-- sessions and its phone are kept, what it studies from, and what its guardians are told.
--
-- The database (app/tables.py) is a record of lists of rows, oldest first: Tables, with the rows
-- in Tables.People, Tables.Activity and Tables.Study. Code over it is a function `Exec Db A` from
-- a database to a result (Prelude.Exec): a value and the database afterwards, or an error of
-- app/errors.py. app/db.py rolls a request's transaction back when an exception leaves the
-- handler, so an error carries no database, and `outcome` is what a request leaves behind. The SQL
-- statements are the functions of Prelude.Rows, and Prelude.Triple has what a run ensures when it
-- returns, and that it returns.
--
-- The parts, by the files that model them:
--   Rules      app/services/rules.py: the calendar (Calendar), the streak (Streak), playable seconds
--              (Play), the material gate (Gate) and the rewards (Reward), over an interface to floats
--              (Float).
--   Deps       app/deps.py: `caller`, `authorize_subject`, `require_policy_writer`, `is_proxy`.
--   Ledger     app/services/ledger.py, and in Ledger.Handlers app/routers/ledger.py.
--   Progress   app/services/progress.py: streak, totals and badges after a session.
--   Policies   app/routers/policies.py: `_is_weakening`, and in Policies.Handlers the endpoints.
--   Auth       app/routers/auth.py: refresh tokens, and in Auth.Accounts `register` and `login`.
--   Profiles   the rows that a new profile starts with.
--   Push       app/services/push.py: the token table.
--   Guardian   app/services/guardian.py, in Guardian.Heartbeat `heartbeat` of app/routers/families.py,
--              and in Guardian.Feed `acknowledge_alert` of app/routers/guardian.py.
--   Devices    app/services/devices.py and app/services/pairing.py.
--   Families   app/routers/families.py.
--   Apps       app/services/apps.py, and the sync of app/routers/apps.py.
--   Queue      app/queue.py and the loop of app/worker.py.
--   Grading    app/services/grading.py: choices and essays.
--   Quizzes    app/routers/quizzes.py: a session's start and order (Opening, Shown), its answers, and
--              its marks, receipt and reward (Marking, Receipt, Submit).
--   Documents  app/services/documents.py: the kinds of files and what may be uploaded together.
--   Storage    app/services/storage.py, and what a request or a job reaches besides the database.
--   Generation app/services/generation.py: which questions are kept (Fit, Apart), and the job (Run), and
--              how it ends (Outcome, Ends).
--   Materials  app/routers/materials.py: upload (Upload), retention, removal, and what is shown; which
--              files the store holds is in Filed, Kept, Added, Job and History.
--   Migrate    app/migrate.py: which migrations are pending, and runs that follow each other (Resume).
--   RateLimit  app/services/ratelimit.py: the counter of a bucket.
--   Samples    data for the tests, which stand in a module Tests of each part.
--
-- The parts meet as the code has them meet: every router first asks Deps; `record_consumption` and the
-- ledger's router read the standing, which reads the policy, the usage, the progress and the rules; the
-- heartbeat and the sweep raise alerts that Push delivers; a pairing displaces phones, which revokes
-- their tokens, their push tokens and their list of apps; an upload queues a job, which stores the
-- questions that a session draws on, and handing a session in credits the ledger and records progress.
-- Where several requests follow each other, a data type lists them as steps (Reaches, Within, Sessions,
-- Watched, Housekept, Studied, Handled, Migrated) and an invariant is shown by induction over it. Each request is
-- one step, as its transaction is.
--
-- Conventions and bounds:
--   * Identifiers are natural numbers that are only compared; times are microseconds, and a request has
--     one `now()`; dates are ordinals. What the time zone database makes of a moment, the local wall
--     clock, is an argument.
--   * Seconds of play are integers without a bound; the database's 32-bit columns are not modelled.
--   * `essay_ratio` of a policy is in hundredths, as its column holds it. In a body it is a double, as the
--     number that its 64 bits are; what Python and the column make of it is a parameter with its laws
--     (Ratios and IsRatios in Policies). Python's other floats are the interface Float with the laws of
--     IEEE 754 that are used (IsFloat); `thousandths` is an instance.
--   * Which calls of the object store succeed is a parameter (Store in Storage); a call that fails is taken
--     to have changed nothing.
--   * The fuel of `decimal`, which prints the minutes of a silence, is the number itself, which has more
--     than enough for its digits, and that of `requeue` the number of busy jobs, one for each turn. Every
--     other loop runs over a list.
--   * Unique indexes stand where an insert meets them; foreign keys are left out, and so are columns
--     that no modelled code reads.
--   * The hash, the password hasher, the texts and identifiers that are drawn, the lifetime of a token,
--     the verdicts of the rate limit and the push provider are parameters, and so are the shuffle of a
--     session, the provider of models, difflib's likeness of texts, `str.lower`, the contents of files
--     and their conversion. The signature of access tokens is left out: a caller is the claims of a
--     token that was verified.
--   * A job looks for its row as often as the code does; its pauses are left out.
--   * The texts of error messages and notifications are left out; the codes of errors are kept.
--
-- Not modelled: the prompts and the calls of third-party services (the rest of app/services/llm.py), the
-- bank of questions for a phone without a network, the stream of a material's stages, the reports and
-- other queries that only read and format; the signing of addresses, settings, the wiring of the web
-- framework, the scripts and the deployment, which decide nothing.
mod Prelude
pub mod Tables
pub mod Rules
pub mod Deps
pub mod Ledger
pub mod Progress
pub mod Policies
pub mod Profiles
pub mod Auth
pub mod Push
pub mod Guardian
pub mod Devices
pub mod Families
pub mod Queue
pub mod Apps
pub mod RateLimit
pub mod Grading
pub mod Quizzes
pub mod Documents
pub mod Storage
pub mod Generation
pub mod Materials
pub mod Migrate
pub mod Samples
