-- ===== src/Ledger/Handlers.antt =====
-- app/routers/ledger.py: the standing that a client sees, the sync of reported play time, and a
-- parent's adjustment.
pub mod History
use brainxp_server.Deps.{Caller, authorize_subject, is_parent, is_proxy}
use brainxp_server.Ledger.{Consumption, Standing, append, progress_of, record_consumption, standing}
use brainxp_server.Prelude.{
  Bool, List, Option, String, [], false, if◌then◌else◌, is_none, ltb, none, not, some, take, true,
  ℕ, ◌&&◌, ◌*◌, ◌++◌, ◌+◌, ◌==◌, ◌∷◌,
}
use brainxp_server.Prelude.Exec.{
  Exec, Result, conflict, err, forbidden, gets, lift, modify, ok, pure, raise_if, ◌>>=◌, ◌>>◌,
}
use brainxp_server.Prelude.Int.{eqb_ℤ, min_ℤ, neg, pos, ℤ}
use brainxp_server.Prelude.Rows.{first_where, rows_where}
use brainxp_server.Rules.Calendar.{second}
use brainxp_server.Rules.Play.{BlockReason, guardian_stale}
use brainxp_server.Tables.{Db}
use brainxp_server.Tables.Activity.{
  AuditEntry, EntryType, LedgerEntry, adjusted, granted, on_id, redeemed,
}
use brainxp_server.Tables.People.{Device, disabled}

-- HEARTBEAT_GRACE: five minutes of microseconds.
abbrev pub heartbeat_grace : ℕ
heartbeat_grace = 5 * 60 * second

-- ORDER BY last_heartbeat_at DESC NULLS LAST: the first comes strictly before the second.
abbrev pub seen_later : Option ℕ → Option ℕ → Bool
seen_later none b = false
seen_later (some a) none = true
seen_later (some a) (some b) = ltb b a

unfoldable pub most_recent : List Device → Option Device
most_recent [] = none
most_recent (d ∷ ds) = elim (most_recent ds) [
  | none ↦ some d
  | some e ↦ if seen_later e.last_heartbeat_at d.last_heartbeat_at then some e else some d
]

abbrev pub bound_to : ℕ → Device → Bool
bound_to subject d = d.subject_id == subject && is_none d.unbound_at

abbrev pub is_stale : ℕ → Device → Bool
is_stale at d = elim d.guardian_status [
  | disabled ↦ true
  | _ ↦ elim d.last_heartbeat_at [ none ↦ false | some t ↦ ltb (t + heartbeat_grace) at ]
]

unfoldable pub frozen : ℕ → ℕ → Db → Bool
unfolding most_recent
frozen subject at db = elim (most_recent (rows_where (bound_to subject) db.devices)) [
  | none ↦ false
  | some d ↦ is_stale at d
]

pub record StandingOut : Type 0 where
  pub balance_seconds : ℤ
  pub playable : ℤ
  pub daily_cap_seconds : ℤ
  pub spent_today_seconds : ℤ
  pub idle_days : ℤ
  pub idle_days_allowed : ℤ
  pub reason : BlockReason
  pub until_reset : ℕ
  pub streak_current : ℕ
  pub freeze_tokens : ℤ

abbrev pub streak_of : ℕ → Db → ℕ × ℤ
streak_of subject db = elim (first_where (progress_of subject) db.progress) [
  | none ↦ (0, pos 0)
  | some p ↦ (p.streak_current, p.freeze_tokens)
]

unfoldable pub standing_out : Standing → Bool → ℕ × ℤ → StandingOut
standing_out st is_frozen (streak, tokens) = record {
  balance_seconds = st.balance;
  playable = if is_frozen then pos 0 else st.playable;
  daily_cap_seconds = st.daily_cap;
  spent_today_seconds = st.spent_today;
  idle_days = st.idle_days;
  idle_days_allowed = st.idle_days_allowed;
  reason = if is_frozen then guardian_stale else st.reason;
  until_reset = st.until_reset;
  streak_current = streak;
  freeze_tokens = tokens;
}

-- GET /subjects/{subject_id}/standing
unfoldable pub view_standing : Caller → ℕ → ℕ → ℕ → Exec Db StandingOut
unfolding standing_out frozen
view_standing me subject at local = do
  authorize_subject me subject
  st ← standing subject at local
  gets (λ db. standing_out st (frozen subject at db) (streak_of subject db))

-- The loop of `sync_consumption` over the first 200 items.
unfoldable pub record_all : ℕ → ℕ → ℕ → List Consumption → Exec Db Unit
record_all subject at local [] = pure tt
record_all subject at local (c ∷ cs) =
    record_consumption subject at local c >> record_all subject at local cs

abbrev pub sync_limit : ℕ
sync_limit = 200

-- POST /subjects/{subject_id}/ledger/sync
unfoldable pub sync_consumption : Caller → ℕ → List Consumption → ℕ → ℕ → Exec Db StandingOut
unfolding record_all
sync_consumption me subject body at local = do
  row ← authorize_subject me subject
  raise_if (is_proxy me row) forbidden
  record_all subject at local (take sync_limit body)
  view_standing me subject at local

pub data Direction : Type 0 where
  grant redeem : Direction

-- The change and its type, or the conflict "empty_balance".
unfoldable pub adjustment : Direction → ℤ → ℤ → Result (ℤ × EntryType)
adjustment grant seconds bal = ok (seconds, granted)
adjustment redeem seconds bal =
    let delta = neg (min_ℤ seconds bal) in
    if eqb_ℤ delta (pos 0) then err (conflict "empty_balance") else ok (delta, redeemed)

abbrev pub adjusted_entry : ℕ → ℤ → EntryType → String → ℕ → LedgerEntry
adjusted_entry subject delta kind note at = record {
  subject_id = subject;
  delta_seconds = delta;
  entry_type = kind;
  note = some note;
  ref_id = none;
  client_event_id = none;
  device_id = none;
  occurred_at = at;
}

abbrev pub kind_action : EntryType → String
kind_action granted = "ledger_granted"
kind_action _ = "ledger_redeemed"

abbrev pub audit : AuditEntry → Exec Db Unit
audit entry = modify (λ db. record db { audit_log = db.audit_log ++ entry ∷ [] })

abbrev pub adjust_audit : Caller → ℕ → ℤ → EntryType → String → AuditEntry
adjust_audit me subject delta kind note = record {
  actor_user_id = me.user_id;
  action = kind_action kind;
  target = on_id subject;
  payload = adjusted delta note;
}

-- The writes of `adjust`, and its reply.
unfoldable pub apply_adjustment : Caller → ℕ → ℤ × EntryType → String → ℕ → ℕ → Exec Db StandingOut
unfolding append
apply_adjustment me subject (delta, kind) note at local = do
  append (adjusted_entry subject delta kind note at)
  audit (adjust_audit me subject delta kind note)
  view_standing me subject at local

-- POST /subjects/{subject_id}/ledger/adjust
unfoldable pub adjust : Caller → ℕ → Direction → ℤ → String → ℕ → ℕ → Exec Db StandingOut
unfolding adjustment apply_adjustment
adjust me subject direction seconds note at local = do
  authorize_subject me subject
  raise_if (not (is_parent me)) forbidden
  st ← standing subject at local
  amount ← lift (adjustment direction seconds st.balance)
  apply_adjustment me subject amount note at local
