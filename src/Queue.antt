-- ===== src/Queue.antt =====
-- app/queue.py and the dispatch of app/worker.py: two Redis lists, leftmost first. Decoding a text is
-- JSON's, and running a job is the handler's: parameters. A text that is queued is never empty.
pub mod Kept
pub mod Order
mod Tests
use brainxp_server.Prelude.{
  Bool, List, Option, String, [], if◌then◌else◌, length, none, or_else, some, str_eq, suc, zero, ℕ,
  ◌+◌, ◌∷◌,
}

pub record Jobs : Type 0 where
  pub ready : List String
  pub busy : List String

-- The rightmost element, and what is left of it.
unfoldable pub pop_right : List String → Option (List String × String)
pop_right [] = none
pop_right (x ∷ xs) = elim (pop_right xs) [
  | none ↦ some ([], x)
  | some (front, last) ↦ some (x ∷ front, last)
]

-- LREM key 1 value
unfoldable pub remove_first : String → List String → List String
remove_first raw [] = []
remove_first raw (x ∷ xs) = if str_eq x raw then xs else x ∷ remove_first raw xs

unfoldable pub enqueue : String → Jobs → Jobs
enqueue raw q = record q { ready = raw ∷ q.ready }

-- BRPOPLPUSH from the ready to the busy list; `none` is the timeout.
unfoldable pub reserve : Jobs → Option String × Jobs
unfolding pop_right
reserve q = elim (pop_right q.ready) [
  | none ↦ (none, q)
  | some (front, raw) ↦ (some raw, record { ready = front; busy = raw ∷ q.busy })
]

unfoldable pub acknowledge : String → Jobs → Jobs
unfolding remove_first
acknowledge raw q = record q { busy = remove_first raw q.busy }

-- The loop of `requeue_stale`, on fuel for the busy jobs.
unfoldable pub requeue : ℕ → Jobs → ℕ × Jobs
unfolding pop_right
requeue zero q = (0, q)
requeue (suc fuel) q = elim (pop_right q.busy) [
  | none ↦ (0, q)
  | some (front, raw) ↦
      let (moved, q') = requeue fuel (record { ready = raw ∷ q.ready; busy = front }) in
      (moved + 1, q')
]

unfoldable pub requeue_stale : Jobs → ℕ × Jobs
unfolding requeue
requeue_stale q = requeue (length q.busy) q

-- What `handle` does with a job: its kind is known or not, and a known one runs to its end or raises.
-- `run` is the database after the handler's transaction, or none when it raised; `abandon` is what the
-- worker then does about the material. The job is acknowledged in every case.
module _ {ℓ} {D J : Type ℓ} (known : J → Bool) (run : J → D → Option D) (abandon : J → D → D) where
  unfoldable pub handle : String → J → D → Jobs → D × Jobs
  unfolding acknowledge
  handle raw job db q =
      if known job
      then (or_else (run job db) (abandon job db), acknowledge raw q)
      else (db, acknowledge raw q)

  -- What the loop does with what it reserved.
  abbrev pub dispatch : (String → J) → D → Option String × Jobs → D × Jobs
  dispatch decode db (none, q) = (db, q)
  dispatch decode db (some raw, q) = handle raw (decode raw) db q

  -- One turn of the worker's loop.
  unfoldable pub work : (String → J) → D → Jobs → D × Jobs
  unfolding reserve handle
  work decode db q = dispatch decode db (reserve q)
