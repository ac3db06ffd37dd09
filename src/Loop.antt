-- ===== src/Loop.antt =====
-- How the loop consults its hooks around a tool call: `_intercept_tool_calls`,
-- `_run_post_dispatch_hooks`, `_post_step_stop_reason` and the event plumbing of
-- src/looplet/loop.py. Hooks are the host's code: a hook is what each of its methods does to the
-- world (everything that hooks share: state, session log, their own fields) and to the objects that
-- it is handed, and what it answers. `none` for a method is a hook without it.
pub mod Intercept
pub mod Turn
pub mod Unreached
pub mod PostDispatch
pub mod Stop
pub mod Stopping
pub mod Ending
pub mod Terminal
pub mod Completion
pub mod Guards
pub mod Gating
pub mod Denial
mod Tests
mod CompletionTests
use looplet.Prelude.{List, Option, String, [], if◌then◌else◌, none, some, ℕ, ◌∷◌}
use looplet.Types.{LifecycleEvent, ToolCall, ToolResult, hook_decision}
use looplet.HookDecision.{HookDecision, is_noop}
use looplet.HookDecision.Normalize.{HookReturn}

-- a call of a hook method: the world and the handed object afterwards, and the answer (`none` if
-- the method raised)
pub record Ran (W O : Type 0) : Type 0 where
  pub world : W
  pub handed : O
  pub answer : Option HookReturn

pub record EventPayload : Type 0 where
  pub event : LifecycleEvent
  pub step_num : ℕ
  pub tool_call : Option ToolCall
  pub tool_result : Option ToolResult
  pub hook_slot : String
  pub hook_name : String
  pub decision : Option HookDecision

pub record Hook (W : Type 0) : Type 0 where
  pub name : String
  pub pre_dispatch : Option (W → ToolCall → ℕ → Ran W ToolCall)
  pub check_permission : Option (W → ToolCall → Ran W ToolCall)
  pub post_dispatch : Option (W → ToolCall × ToolResult → ℕ → Ran W (ToolCall × ToolResult))
  pub should_stop : Option (W → ℕ → ℕ → Ran W Unit)
  pub on_event : Option (W → EventPayload → Ran W EventPayload)

-- `_record_policy_decision` writes the audit record into the run's state, a part of the world
pub record Recorder (W : Type 0) : Type 0 where
  pub record_policy_decision : HookDecision → W → W

module _ {W : Type 0} (recorder : Recorder W) where
  -- observers of an event: what they answer is not used, and what they raise is logged
  unfoldable pub notify : EventPayload → List (Hook W) → W → W
  notify payload [] w = w
  notify payload (hook ∷ hooks) w =
      notify payload hooks (elim hook.on_event [ none ↦ w | some f ↦ (f w payload).world ])

  -- `_emit_hook_decision_event`
  unfoldable pub emit_hook_decision_event :
      List (Hook W) → HookDecision → String → String → ℕ → W → W
  emit_hook_decision_event hooks d slot name step w =
      if is_noop d
      then w
      else notify
          (record {
            event = hook_decision;
            step_num = step;
            tool_call = none;
            tool_result = none;
            hook_slot = slot;
            hook_name = name;
            decision = some d;
          })
          hooks (recorder.record_policy_decision d w)
