-- ===== src/Steering/Tests.antt =====
-- Steering and approval at concrete runs.
use looplet.Prelude.{List, String, [], if◌then◌else◌, none, refl, str_eq, ◌++◌, ◌∷◌, ◌≡◌}
use looplet.Value.{cons, list, nil, text}
use looplet.Steering.{
  SteeringQueue, attribute_error, drain, one_at_a_time, post_dispatch_approval, steer,
}
use looplet.Steering.Delivery.{Turn, arrivals, arrives, prompts, run_turns, run_turns-arrivals}

abbrev strip : String → String
strip s = if str_eq s " " then "" else s

abbrev empty_queue : SteeringQueue
empty_queue = record { mode = one_at_a_time; queue = [] }

abbrev turns : List Turn
turns = arrives "first" ∷ arrives " " ∷ arrives "second" ∷ prompts ∷ prompts ∷ arrives "third" ∷ []

two_delivered : (run_turns strip turns empty_queue).0 ≡ "first" ∷ "second" ∷ []
unfolding steer drain
two_delivered = refl

-- A result whose data is a list, not a dict, makes the approval hook raise.
list_raises :
    (post_dispatch_approval 1 "search" (list (cons (text "hit") nil)) (record { pending = none })).0
    ≡ attribute_error
unfolding post_dispatch_approval
list_raises = refl

run_turns-arrivals_example :
    (run_turns strip turns empty_queue).0 ++ (run_turns strip turns empty_queue).1.queue
    ≡ [] ++ arrivals strip turns
run_turns-arrivals_example = run_turns-arrivals strip turns empty_queue
