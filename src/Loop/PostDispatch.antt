-- ===== src/Loop/PostDispatch.antt =====
-- `_run_post_dispatch_hooks` of src/looplet/loop.py: what the hooks make of a tool's result.
use looplet.Prelude.{
  Bool, List, Option, String, [], false, if◌then◌else◌, none, not, or_else, some, str_eq, true, ℕ,
  ◌∷◌,
}
use looplet.Types.{
  LifecycleEvent, ToolCall, ToolResult, event_value, post_tool_failure, post_tool_use,
}
use looplet.HookDecision.{HookDecision}
use looplet.HookDecision.Normalize.{HookReturn, decided, normal, normalize_hook_return, type_error}
use looplet.Loop.{EventPayload, Hook, Ran, Recorder, emit_hook_decision_event}
use looplet.Loop.Intercept.{add_context}

-- where the hooks are: the world, the call, and `_PostDispatchOutcome`
pub record PostDispatch (W : Type 0) : Type 0 where
  pub world : W
  pub tool_call : ToolCall
  pub tool_result : ToolResult
  pub extra_context : List String
  pub stop_reason : Option String

-- `tool_result.error` is a text that is not empty
abbrev pub has_error : ToolResult → Bool
has_error r = elim r.error [ none ↦ false | some s ↦ not (str_eq s "") ]

-- a later stop replaces an earlier one
abbrev pub latest : Option String → Option String → Option String
latest none old = old
latest (some s) old = some s

-- the body of `for decision in decisions`
unfoldable pub absorb : {W : Type 0} → HookDecision → PostDispatch W → PostDispatch W
absorb d p = record p {
  tool_result = or_else d.updated_result p.tool_result;
  extra_context = add_context d.additional_context p.extra_context;
  stop_reason = latest d.stop p.stop_reason;
}

module _ {W : Type 0} (recorder : Recorder W) where
  -- what follows the hook's `post_dispatch`
  unfoldable pub after_post :
      List (Hook W)
      → String
      → ℕ
      → Ran W (ToolCall × ToolResult)
      → PostDispatch W
      → Option (PostDispatch W)
  after_post hooks name step ran p =
      let q : PostDispatch W = record p {
        world = ran.world;
        tool_call = ran.handed.0;
        tool_result = ran.handed.1;
      } in
      elim ran.answer [
        | none ↦ none
        | some v ↦ elim (normalize_hook_return v "post_dispatch") [
          | type_error ↦ none
          | normal none ↦ some q
          | normal (some d) ↦ some (
              absorb d (record q {
                world = emit_hook_decision_event recorder hooks d "post_dispatch" name step q.world;
              }))
        ]
      ]

  -- what `_iter_event_decisions` does with an answer to POST_TOOL_USE or POST_TOOL_FAILURE: only a
  -- `HookDecision` counts
  unfoldable pub post_event_answer :
      List (Hook W)
      → LifecycleEvent
      → String
      → ℕ
      → HookReturn
      → PostDispatch W
      → Option (PostDispatch W)
  post_event_answer hooks event name step (decided d) p =
      let q : PostDispatch W = record p {
        world = emit_hook_decision_event recorder hooks d "on_event" name step p.world;
      } in
      elim (normalize_hook_return (decided d) (event_value event)) [
        | type_error ↦ none
        | normal none ↦ some q
        | normal (some e) ↦ some (absorb e q)
      ]
  post_event_answer hooks event name step _ p = some p

  -- what follows the hook's `on_event`; a raise is logged, and the run goes on
  unfoldable pub after_post_event :
      List (Hook W)
      → LifecycleEvent
      → String
      → ℕ
      → Ran W EventPayload
      → PostDispatch W
      → Option (PostDispatch W)
  after_post_event hooks event name step ran p =
      let q : PostDispatch W = record p {
        world = ran.world;
        tool_call = or_else ran.handed.tool_call p.tool_call;
        tool_result = or_else ran.handed.tool_result p.tool_result;
      } in
      elim ran.answer [ none ↦ some q | some v ↦ post_event_answer hooks event name step v q ]

  -- one hook: its `post_dispatch`, or its `on_event` if it has no `post_dispatch`
  unfoldable pub settle_hook :
      List (Hook W) → Bool → Hook W → ℕ → PostDispatch W → Option (PostDispatch W)
  settle_hook hooks emit_lifecycle hook step p = elim hook.post_dispatch [
    | some f ↦ after_post hooks hook.name step (f p.world (p.tool_call, p.tool_result) step) p
    | none ↦ elim emit_lifecycle [
      | false ↦ some p
      | true ↦ elim hook.on_event [
        | none ↦ some p
        | some f ↦
            let event = if has_error p.tool_result then post_tool_failure else post_tool_use in
            after_post_event hooks event hook.name step
              (f p.world (record {
                event = event;
                step_num = step;
                tool_call = some p.tool_call;
                tool_result = some p.tool_result;
                hook_slot = "";
                hook_name = "";
                decision = none;
              }))
              p
      ]
    ]
  ]

  -- the loop over the hooks; a raise ends it
  unfoldable pub run_post_dispatch_hooks :
      List (Hook W) → Bool → List (Hook W) → ℕ → PostDispatch W → Option (PostDispatch W)
  run_post_dispatch_hooks hooks emit_lifecycle [] step p = some p
  run_post_dispatch_hooks hooks emit_lifecycle (hook ∷ rest) step p =
      (elim (settle_hook hooks emit_lifecycle hook step p) [
        | none ↦ none
        | some q ↦ run_post_dispatch_hooks hooks emit_lifecycle rest step q
      ])
