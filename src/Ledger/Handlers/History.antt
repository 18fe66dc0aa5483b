-- ===== src/Ledger/Handlers/History.antt =====
-- The requests that write to the time ledger, in any order.
use brainxp_server.Deps.{Caller, authorize_subject, is_parent, is_proxy}
use brainxp_server.Deps.Access.{authorize_keeps}
use brainxp_server.Ledger.{
  Consumption, append, balance, credit_reward, earned_entry, record_consumption, standing,
}
use brainxp_server.Ledger.Balance.{total, total_consumed}
use brainxp_server.Ledger.Handlers.{
  Direction, adjust, adjust_audit, adjusted_entry, adjustment, apply_adjustment, audit, grant,
  record_all, redeem, sync_consumption, sync_limit, view_standing,
}
use brainxp_server.Ledger.Solvent.{neg_parts}
use brainxp_server.Ledger.Sound.{
  IsSound, append-IsSound, record_consumption-IsSound, standing-IsSound,
}
use brainxp_server.Ledger.Usage.{total_spent}
use brainxp_server.Prelude.{
  Bool-cases, List, String, [], arith, inl, inr, not, some, take, ℕ, ◌++◌, ◌∷◌, ◌≡◌, ◌≢◌,
}
use brainxp_server.Prelude.Exec.{Result, err, forbidden, lift, ok, outcome, pure, raise_if, ◌>>◌}
use brainxp_server.Prelude.Int.{+ℤ_parts, eqb_ℤ, ltb_ℤ, max_ℤ, min_ℤ, neg, pos, ℤ, ◌+ℤ◌, ◌≤ℤ◌}
use brainxp_server.Prelude.Triple.{
  Post, Post-bind, Post-map, Triple, Triple-bind, lift-keeps, raise_if-keeps,
}
use brainxp_server.Tables.{Db}
use brainxp_server.Tables.Activity.{EntryType, consumed}

-- A request with its moment: what the devices, the parents and the quiz make of the ledger. A grant
-- or a redemption is of at least 60 seconds (`AdjustIn`), so of no negative amount.
pub data Request : Type 0 where
  view : Caller → ℕ → Request
  sync : Caller → ℕ → List Consumption → Request
  change : Caller → ℕ → Direction → ℕ → String → Request
  reward : ℕ → ℤ → String → ℕ → Request

-- The database after a request: as it was, when the request was refused.
abbrev pub respond : Request → ℕ → ℕ → Db → Db
respond (view me subject) at local db = outcome db (view_standing me subject at local db)
respond (sync me subject body) at local db =
    outcome db (sync_consumption me subject body at local db)
respond (change me subject direction seconds note) at local db =
    outcome db (adjust me subject direction (pos seconds) note at local db)
respond (reward subject credited note session) at local db =
    outcome db (credit_reward subject credited note (some session) at db)

pub data Reaches (start : Db) : Db → Type 0 where
  here : Reaches start start
  next :
      {db : Db}
      → Reaches start db
      → (r : Request) (at local : ℕ) → Reaches start (respond r at local db)

outcome-IsSound :
    {A : Type 0} (db : Db) (r : Result (A × Db))
    → IsSound db
    → Post (λ _. IsSound) r
    → IsSound (outcome db r)
outcome-IsSound db (ok (a, db')) h p = p
outcome-IsSound db (err e) h p = h

view_standing-IsSound :
    (me : Caller) (subject at local : ℕ)
    → Triple IsSound (view_standing me subject at local) (λ _. IsSound)
unfolding view_standing
view_standing-IsSound me subject at local =
    Triple-bind IsSound (authorize_subject me subject) _ (λ _. IsSound) _
      (authorize_keeps IsSound me subject)
      (λ row.
        Triple-bind IsSound (standing subject at local) _ (λ _. IsSound) _
          (λ db h.
            Post-map _ _ (standing subject at local db) (λ st db' p. p.0)
              (standing-IsSound subject at local db h))
          (λ st db h. h))

record_all-IsSound :
    (subject at local : ℕ) (cs : List Consumption)
    → Triple IsSound (record_all subject at local cs) (λ _. IsSound)
unfolding record_all
record_all-IsSound subject at local [] = λ db h. h
record_all-IsSound subject at local (c ∷ cs) =
    Triple-bind IsSound (record_consumption subject at local c) _ (λ _. IsSound) _
      (record_consumption-IsSound subject at local c) (λ _. record_all-IsSound subject at local cs)

sync-IsSound :
    (me : Caller) (subject : ℕ) (body : List Consumption) (at local : ℕ)
    → Triple IsSound (sync_consumption me subject body at local) (λ _. IsSound)
unfolding sync_consumption
sync-IsSound me subject body at local =
    Triple-bind IsSound (authorize_subject me subject) _ (λ _. IsSound) _
      (authorize_keeps IsSound me subject)
      (λ row.
        Triple-bind IsSound (raise_if (is_proxy me row) forbidden) _ (λ _. IsSound) _
          (raise_if-keeps IsSound (is_proxy me row) forbidden)
          (λ _.
            Triple-bind IsSound (record_all subject at local (take sync_limit body)) _
              (λ _. IsSound) _ (record_all-IsSound subject at local (take sync_limit body))
              (λ _. view_standing-IsSound me subject at local)))

-- What an adjustment adds, the profile's total can bear, and it is no consumption.
adjustment-bears :
    (d : Direction) (seconds : ℕ) (bal t : ℤ) (db : Db)
    → bal ≡ max_ℤ (pos 0) t
    → pos 0 ≤ℤ t
    → Post
        (λ change' _. (change'.1 ≢ consumed) × (pos 0 ≤ℤ t +ℤ change'.0))
        (lift (adjustment d (pos seconds) bal) db)
unfolding adjustment
adjustment-bears grant seconds bal t db e h = (λ w. cc, ground (arith, +ℤ_parts t (pos seconds)))
adjustment-bears redeem seconds bal t db e h =
    let k = min_ℤ (pos seconds) bal in
    elim (Bool-cases (eqb_ℤ (neg k) (pos 0))) [
      | inl z ↦ rw z tt
      | inr z ↦ rw z (λ w. cc, ground (arith, neg_parts t k))
    ]

apply_adjustment-IsSound :
    (me : Caller) (subject : ℕ) (delta : ℤ) (kind : EntryType) (note : String) (at local : ℕ)
    (db : Db)
    → kind ≢ consumed
    → pos 0 ≤ℤ total subject db +ℤ delta
    → IsSound db
    → Post (λ _. IsSound) (apply_adjustment me subject (delta, kind) note at local db)
unfolding apply_adjustment
apply_adjustment-IsSound me subject delta kind note at local db other bears h =
    let entry = adjust_audit me subject delta kind note in
    Post-bind (append (adjusted_entry subject delta kind note at))
      (λ _. audit entry >> view_standing me subject at local) db (λ _. IsSound) (λ _. IsSound)
      (append-IsSound (adjusted_entry subject delta kind note at) db other bears h)
      (λ _ db' h'.
        view_standing-IsSound me subject at local
          (record db' { audit_log = db'.audit_log ++ entry ∷ [] }) h')

adjust-IsSound :
    (me : Caller) (subject : ℕ) (d : Direction) (seconds : ℕ) (note : String) (at local : ℕ)
    → Triple IsSound (adjust me subject d (pos seconds) note at local) (λ _. IsSound)
unfolding adjust balance
adjust-IsSound me subject d seconds note at local =
    Triple-bind IsSound (authorize_subject me subject) _ (λ _. IsSound) _
      (authorize_keeps IsSound me subject)
      (λ row.
        Triple-bind IsSound (raise_if (not (is_parent me)) forbidden) _ (λ _. IsSound) _
          (raise_if-keeps IsSound (not (is_parent me)) forbidden)
          (λ _.
            Triple-bind IsSound (standing subject at local) _ _ _
              (standing-IsSound subject at local)
              (λ st db h.
                let bears =
                  λ (c : ℤ × EntryType). (c.1 ≢ consumed) × (pos 0 ≤ℤ total subject db +ℤ c.0) in
                Post-bind (lift (adjustment d (pos seconds) st.balance))
                  (λ c. apply_adjustment me subject c note at local) db
                  (λ c db'. (db' ≡ db) × bears c) (λ _. IsSound)
                  (lift-keeps (adjustment d (pos seconds) st.balance) db bears (
                    adjustment-bears d seconds st.balance (total subject db) db h.2.0
                      (h.0 subject).0))
                  (λ c db' q. rw q.0 (
                    apply_adjustment-IsSound me subject c.0 c.1 note at local db q.1.0 q.1.1
                      h.0)))))

reward-IsSound :
    (subject : ℕ) (credited : ℤ) (note : String) (session at : ℕ)
    → Triple IsSound (credit_reward subject credited note (some session) at) (λ _. IsSound)
unfolding credit_reward
reward-IsSound subject credited note session at db h = elim (Bool-cases (ltb_ℤ (pos 0) credited)) [
  | inl z ↦
      let e = earned_entry subject credited note (some session) at in
      rw z (
        Post-bind {B = ℤ} (append e) (λ _. pure credited) db (λ _. IsSound) (λ _. IsSound)
          (append-IsSound e db (λ w. cc)
            (ground (arith, (h subject).0, +ℤ_parts (total subject db) credited)) h)
          (λ _ db' h'. h'))
  | inr z ↦ rw z h
]

respond-IsSound :
    (r : Request) (at local : ℕ) (db : Db) → IsSound db → IsSound (respond r at local db)
respond-IsSound (view me subject) at local db h =
    outcome-IsSound db _ h (view_standing-IsSound me subject at local db h)
respond-IsSound (sync me subject body) at local db h =
    outcome-IsSound db _ h (sync-IsSound me subject body at local db h)
respond-IsSound (change me subject d seconds note) at local db h =
    outcome-IsSound db _ h (adjust-IsSound me subject d seconds note at local db h)
respond-IsSound (reward subject credited note session) at local db h =
    outcome-IsSound db _ h (reward-IsSound subject credited note session at db h)

-- Whatever requests reach the ledger, in any order and at any moments, refused ones included, from a
-- database where it holds: for every profile the entries never sum to a debt, so that the balance is
-- their plain sum, and the seconds spent over all days are exactly what the consumption entries
-- took.
pub Reaches-IsSound :
    {start db : Db}
    → IsSound start
    → Reaches start db
    → (s : ℕ)
    → (pos 0 ≤ℤ total s db)
      × (balance s db ≡ total s db)
      × (total_spent s db.daily_usage ≡ total_consumed s db.time_ledger)
unfolding balance
Reaches-IsSound h r s =
    let sound = walk h r in ((sound s).0, ground (arith, (sound s).0), (sound s).1)
  where
    walk : {start db : Db} → IsSound start → Reaches start db → IsSound db
    walk h here = h
    walk h (next r q at local) = respond-IsSound q at local _ (walk h r)
