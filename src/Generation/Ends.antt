-- ===== src/Generation/Ends.antt =====
-- How the job of app/services/generation.py ends, and what it has published then.
use brainxp_server.Generation.Outside.{Outside}
use brainxp_server.Rules.Float.{Float}
