-- ===== src/Steering/Delivery.antt =====
-- What becomes of the messages of the operator.
use looplet.Prelude.{
  Bool-cases, List, Option, String, [], ap, if◌then◌else◌, inl, inr, none, refl, some, str_eq, sym,
  ◌++◌, ◌∙◌, ◌∷◌, ◌≡◌,
}
use mathlib.Core.List.{append-nil, append_assoc}
use looplet.Steering.{
  DeliveryMode, SteeringQueue, all_at_once, drain, one_at_a_time, steer, take_due,
}

-- what happens to the queue: a message arrives, or a prompt takes what is due
pub data Turn : Type 0 where
  arrives : String → Turn
  prompts : Turn

-- the messages that a message counts as
abbrev pub accepted : (String → String) → String → List String
accepted strip message = if str_eq (strip message) "" then [] else strip message ∷ []

abbrev pub delivered : Option (List String) → List String
delivered none = []
delivered (some ms) = ms

module _ (strip : String → String) where
  -- the messages that the turns deliver, and the queue after them
  abbrev pub run_turns : List Turn → SteeringQueue → List String × SteeringQueue
  run_turns [] q = ([], q)
  run_turns (arrives message ∷ turns) q = run_turns turns (steer strip message q)
  run_turns (prompts ∷ turns) q =
      let (due, q') = drain q in
      let (later, last) = run_turns turns q' in (delivered due ++ later, last)

  abbrev pub arrivals : List Turn → List String
  arrivals [] = []
  arrivals (arrives message ∷ turns) = accepted strip message ++ arrivals turns
  arrivals (prompts ∷ turns) = arrivals turns

  steer-queue :
      (message : String) (q : SteeringQueue)
      → (steer strip message q).queue ≡ q.queue ++ accepted strip message
  unfolding steer
  steer-queue message q = elim (Bool-cases (str_eq (strip message) "")) [
    | inl e ↦ rw (steer, e) (sym (append-nil q.queue))
    | inr e ↦ rw (steer, e)
  ]

  take_due-queue :
      (mode : DeliveryMode) (ms : List String) (q : SteeringQueue)
      → q.queue ≡ ms
      → delivered (take_due mode ms q).0 ++ (take_due mode ms q).1.queue ≡ ms
  take_due-queue mode [] q e = e
  take_due-queue one_at_a_time (m ∷ ms) q e = refl
  take_due-queue all_at_once (m ∷ ms) q e = append-nil (m ∷ ms)

  drain-queue : (q : SteeringQueue) → delivered (drain q).0 ++ (drain q).1.queue ≡ q.queue
  unfolding drain
  drain-queue q = take_due-queue q.mode q.queue q refl

  -- Whenever messages arrive and prompts are built, in either mode, the messages that were delivered,
  -- followed by those still in the queue, are the messages that were there and those that arrived: each
  -- exactly once, in the order of their arrival.
  pub run_turns-arrivals :
      (turns : List Turn) (q : SteeringQueue)
      → (run_turns turns q).0 ++ (run_turns turns q).1.queue ≡ q.queue ++ arrivals turns
  run_turns-arrivals [] q = sym (append-nil q.queue)
  run_turns-arrivals (arrives message ∷ turns) q =
      run_turns-arrivals turns (steer strip message q)
      ∙ ap (λ ms. ms ++ arrivals turns) (steer-queue message q)
      ∙ append_assoc q.queue (accepted strip message) (arrivals turns)
  run_turns-arrivals (prompts ∷ turns) q =
      let (due, q') = drain q in
      append_assoc (delivered due) (run_turns turns q').0 (run_turns turns q').1.queue
      ∙ ap (λ ms. delivered due ++ ms) (run_turns-arrivals turns q')
      ∙ sym (append_assoc (delivered due) q'.queue (arrivals turns))
      ∙ ap (λ ms. ms ++ arrivals turns) (drain-queue q)
