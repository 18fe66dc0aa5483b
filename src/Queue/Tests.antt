-- ===== src/Queue/Tests.antt =====
-- A queue of three jobs, one of them of a kind that the worker does not know.
use brainxp_server.Prelude.{
  Bool, List, Option, String, [], if◌then◌else◌, none, not, refl, some, str_eq, ◌∷◌, ◌≡◌,
}
use brainxp_server.Queue.{requeue_stale}
use brainxp_server.Queue.Kept.{requeue_stale_lem}
use brainxp_server.Queue.Order.{effects, turns, turns_lem}

abbrev is_known : String → Bool
is_known job = not (str_eq job "c")

-- A log of the jobs that ran; "b" raises.
abbrev logged : String → List String → Option (List String)
logged job db = if str_eq job "b" then none else some (job ∷ db)

abbrev given_up : String → List String → List String
given_up job db = "failed" ∷ db

abbrev as_is : String → String
as_is job = job

abbrev three : List String
three = "c" ∷ "b" ∷ "a" ∷ []

turns_lem_example :
    turns is_known logged given_up as_is 3 [] (record { ready = three; busy = "x" ∷ [] })
    ≡ (effects is_known logged given_up as_is three [], record { ready = []; busy = "x" ∷ [] })
turns_lem_example = turns_lem is_known logged given_up as_is three ("x" ∷ []) []

effects_test : effects is_known logged given_up as_is three [] ≡ "failed" ∷ "a" ∷ []
effects_test = refl

requeue_stale_lem_example :
    requeue_stale (record { ready = three; busy = "y" ∷ "x" ∷ [] })
    ≡ (2, record { ready = "y" ∷ "x" ∷ "c" ∷ "b" ∷ "a" ∷ []; busy = [] })
requeue_stale_lem_example = requeue_stale_lem three ("y" ∷ "x" ∷ [])
