-- ===== src/Loop/Stop.antt =====
-- `_post_step_stop_reason` of src/looplet/loop.py: whether the run ends after a step.
use looplet.Prelude.{List, Option, String, [], if◌then◌else◌, none, some, str_eq, ℕ, ◌∷◌}
use looplet.HookDecision.{is_stop}
use looplet.HookDecision.Normalize.{normal, normalize_hook_return, type_error}
use looplet.Loop.{Hook, Ran, Recorder, emit_hook_decision_event}

-- `decision.stop or "hook_stop"`
abbrev pub stop_text : Option String → String
stop_text none = "hook_stop"
stop_text (some s) = if str_eq s "" then "hook_stop" else s

module _ {W : Type 0} (recorder : Recorder W) where
  -- a hook's answer: the world, and the reason if it stops; `none` if it raised
  unfoldable pub after_should_stop :
      List (Hook W) → String → ℕ → Ran W Unit → Option (W × Option String)
  after_should_stop hooks name step ran = elim ran.answer [
    | none ↦ none
    | some v ↦ elim (normalize_hook_return v "should_stop") [
      | type_error ↦ none
      | normal none ↦ some (ran.world, none)
      | normal (some d) ↦ some (
        emit_hook_decision_event recorder hooks d "should_stop" name step ran.world,
        if is_stop d then some (stop_text d.stop) else none,
      )
    ]
  ]

  -- one hook
  unfoldable pub ask_should_stop : List (Hook W) → Hook W → ℕ → ℕ → W → Option (W × Option String)
  ask_should_stop hooks hook step new_entities w = elim hook.should_stop [
    | none ↦ some (w, none)
    | some f ↦ after_should_stop hooks hook.name step (f w step new_entities)
  ]

  -- the first reason ends the loop
  unfoldable pub first_stop :
      (W → Option (W × Option String)) → Option (W × Option String) → Option (W × Option String)
  first_stop next none = none
  first_stop next (some (w, some s)) = some (w, some s)
  first_stop next (some (w, none)) = next w

  unfoldable pub stop_reason_of_hooks :
      List (Hook W) → List (Hook W) → ℕ → ℕ → W → Option (W × Option String)
  stop_reason_of_hooks hooks [] step new_entities w = some (w, none)
  stop_reason_of_hooks hooks (hook ∷ rest) step new_entities w =
      first_stop (stop_reason_of_hooks hooks rest step new_entities)
        (ask_should_stop hooks hook step new_entities w)

  unfoldable pub post_step_stop_reason :
      List (Hook W) → ℕ → ℕ → Option String → W → Option (W × Option String)
  post_step_stop_reason hooks step new_entities (some reason) w = some (w, some reason)
  post_step_stop_reason hooks step new_entities none w =
      stop_reason_of_hooks hooks hooks step new_entities w
