-- ===== src/Tables.antt =====
-- app/tables.py: the database that the modelled operations read and write, a list of rows to a
-- table, oldest first. `alert_sequence` is the sequence behind the alerts' serial key.
pub mod People
pub mod Activity
pub mod Study
use brainxp_server.Prelude.{List, [], ℕ}
use brainxp_server.Tables.Activity.{
  Achievement, AuditEntry, DailyUsage, GuardianAlert, GuardianEvent, InstalledApp, LedgerEntry,
  Policy, Progress,
}
use brainxp_server.Tables.People.{
  Device, Family, FamilyMember, PairingCode, PushToken, RefreshToken, Subject, User,
}
use brainxp_server.Tables.Study.{Material, Question, QuestionSet, QuizAnswer, QuizSession}

pub record Db : Type 0 where
  pub users : List User
  pub families : List Family
  pub family_members : List FamilyMember
  pub subjects : List Subject
  pub devices : List Device
  pub refresh_tokens : List RefreshToken
  pub pairing_codes : List PairingCode
  pub push_tokens : List PushToken
  pub policies : List Policy
  pub time_ledger : List LedgerEntry
  pub daily_usage : List DailyUsage
  pub progress : List Progress
  pub achievements : List Achievement
  pub installed_apps : List InstalledApp
  pub guardian_events : List GuardianEvent
  pub audit_log : List AuditEntry
  pub guardian_alerts : List GuardianAlert
  pub alert_sequence : ℕ
  pub materials : List Material
  pub question_sets : List QuestionSet
  pub questions : List Question
  pub quiz_sessions : List QuizSession
  pub quiz_answers : List QuizAnswer

abbrev pub empty_db : Db
empty_db = record {
  users = [];
  families = [];
  family_members = [];
  subjects = [];
  devices = [];
  refresh_tokens = [];
  pairing_codes = [];
  push_tokens = [];
  policies = [];
  time_ledger = [];
  daily_usage = [];
  progress = [];
  achievements = [];
  installed_apps = [];
  guardian_events = [];
  audit_log = [];
  guardian_alerts = [];
  alert_sequence = 1;
  materials = [];
  question_sets = [];
  questions = [];
  quiz_sessions = [];
  quiz_answers = [];
}
