-- ===== src/Loop/Intercept.antt =====
-- `_intercept_tool_calls`: every hook's gate before a tool runs, then every permission check.
-- A hook yields at most one decision here, so the inner loop over `decisions` is one step.
use Prim.Native.String.{◌++◌ as str_append}
use looplet.Prelude.{
  Bool, List, Option, String, [], false, if◌then◌else◌, none, or_else, some, str_eq, true, ℕ, ◌++◌,
  ◌+◌, ◌∷◌,
}
use looplet.Value.{Fields, end, null}
use looplet.Types.{ToolCall, ToolResult, permission_denied, pre_tool_use}
use looplet.HookDecision.{HookDecision, is_text}
use looplet.HookDecision.Normalize.{HookReturn, decided, normal, normalize_hook_return, type_error}
use looplet.Loop.{EventPayload, Hook, Ran, Recorder, emit_hook_decision_event}

-- where the gates of one call stand
pub record Pass (W : Type 0) : Type 0 where
  pub world : W
  pub call : ToolCall
  pub intercepted : Option ToolResult
  pub extra_context : List String
  pub denied : Bool

-- "Permission denied for tool 'X'", with the reason if there is one
unfoldable pub denial_message : String → String → String
denial_message tool reason =
    let prefix = str_append "Permission denied for tool '" (str_append tool "'") in
    if str_eq reason "" then prefix else str_append prefix (str_append ": " reason)

-- the error result of a denied call; `summarize` is `_summarize_args_dict`
unfoldable pub denied_result : (Fields → String) → ToolCall → String → ToolResult
denied_result summarize call reason = record {
  tool = call.tool;
  args_summary = summarize call.args;
  payload = null;
  error = some (denial_message call.tool reason);
  error_detail = some (record {
    kind = permission_denied;
    message = denial_message call.tool reason;
    retriable = false;
    context = end;
    recovery_hint = none;
  });
  duration_ms = 0;
  result_key = none;
  call_id = none;
  warnings = [];
  metadata = end;
}

abbrev pub with_args : Option Fields → ToolCall → ToolCall
with_args none call = call
with_args (some args) call = record call { args = args }

-- a decision that carries a text: `if decision.additional_context`
abbrev pub add_context : Option String → List String → List String
add_context none extra = extra
add_context (some s) extra = if str_eq s "" then extra else extra ++ s ∷ []

abbrev pub refuses : Option HookDecision → Bool
refuses none = false
refuses (some d) = is_text d.permission "deny"

abbrev pub reason_of : Option HookDecision → String
reason_of none = ""
reason_of (some d) = or_else d.block ""

module _ {W : Type 0} (recorder : Recorder W) (summarize : Fields → String) where
  -- the body of `for decision in decisions`
  unfoldable pub apply_decision : HookDecision → Pass W → Pass W
  apply_decision d p =
      let call = with_args d.updated_args p.call in
      if is_text d.permission "deny"
      then record p {
        call = call;
        intercepted = some (denied_result summarize call (or_else d.block ""));
        denied = true;
      }
      else (elim d.updated_result [
        | some r ↦ record p { call = call; intercepted = some r }
        | none ↦ record p {
          call = call;
          extra_context = add_context d.additional_context p.extra_context;
        }
      ])

  unfoldable pub apply_optional : Option HookDecision → Pass W → Pass W
  apply_optional none p = p
  apply_optional (some d) p = apply_decision d p

  -- what the hook at a gate answered: the pass with the hook's changes, and the decision
  unfoldable pub after_return :
      List (Hook W)
      → String
      → String
      → ℕ
      → Ran W ToolCall
      → Pass W
      → Option (Option HookDecision × Pass W)
  after_return hooks slot name step ran p = elim ran.answer [
    | none ↦ none
    | some v ↦ elim (normalize_hook_return v slot) [
      | type_error ↦ none
      | normal none ↦ some (none, record p { world = ran.world; call = ran.handed })
      | normal (some d) ↦ some (
        some d,
        record p {
          world = emit_hook_decision_event recorder hooks d slot name step ran.world;
          call = ran.handed;
        },
      )
    ]
  ]

  -- what `_iter_event_decisions` does with an answer to PRE_TOOL_USE: only a `HookDecision` counts
  unfoldable pub event_answer :
      List (Hook W) → String → ℕ → HookReturn → Pass W → Option (Option HookDecision × Pass W)
  event_answer hooks name step (decided d) p =
      (elim (normalize_hook_return (decided d) "pre_tool_use") [
        | type_error ↦ none
        | normal o ↦ some (
          o,
          record p {
            world = emit_hook_decision_event recorder hooks d "on_event" name step p.world;
          },
        )
      ])
  event_answer hooks name step _ p = some (none, p)

  -- an `on_event` at the gate, closed on failure
  unfoldable pub after_event :
      List (Hook W)
      → String
      → ℕ
      → Ran W EventPayload
      → Pass W
      → Option (Option HookDecision × Pass W)
  after_event hooks name step ran p =
      let q : Pass W = record p { world = ran.world; call = or_else ran.handed.tool_call p.call } in
      elim ran.answer [ none ↦ none | some v ↦ event_answer hooks name step v q ]

  -- the gate of one hook: its `pre_dispatch`, or its `on_event` if it has no `pre_dispatch`
  unfoldable pub ask_gate :
      List (Hook W) → Hook W → ℕ → Pass W → Option (Option HookDecision × Pass W)
  ask_gate hooks hook step p = elim hook.pre_dispatch [
    | some f ↦ after_return hooks "pre_dispatch" hook.name step (f p.world p.call step) p
    | none ↦ elim hook.on_event [
      | none ↦ some (none, p)
      | some f ↦
          after_event hooks hook.name step
            (f p.world (record {
              event = pre_tool_use;
              step_num = step;
              tool_call = some p.call;
              tool_result = none;
              hook_slot = "";
              hook_name = "";
              decision = none;
            }))
            p
    ]
  ]

  -- `if denied: break`
  unfoldable pub unless_denied : (Pass W → Option (Pass W)) → Pass W → Option (Pass W)
  unless_denied next q = elim q.denied [ true ↦ some q | false ↦ next q ]

  unfoldable pub gate_then :
      (Pass W → Option (Pass W)) → Option (Option HookDecision × Pass W) → Option (Pass W)
  gate_then next none = none
  gate_then next (some (o, p)) = unless_denied next (apply_optional o p)

  -- the loop over the gates
  unfoldable pub run_gates : List (Hook W) → List (Hook W) → ℕ → Pass W → Option (Pass W)
  run_gates hooks [] step p = some p
  run_gates hooks (hook ∷ rest) step p =
      gate_then (run_gates hooks rest step) (ask_gate hooks hook step p)

  -- one `check_permission`; the decision is the normalized one
  unfoldable pub ask_check :
      List (Hook W) → Hook W → ℕ → Pass W → Option (Option HookDecision × Pass W)
  ask_check hooks hook step p = elim hook.check_permission [
    | none ↦ some (none, p)
    | some f ↦ after_return hooks "check_permission" hook.name step (f p.world p.call) p
  ]

  -- the end of one check: a refusal breaks the loop. (The source has no flag here: `denied` only
  -- tells a refusal from a result that a hook supplied.)
  unfoldable pub check_then :
      (Pass W → Option (Pass W)) → Option (Option HookDecision × Pass W) → Option (Pass W)
  check_then next none = none
  check_then next (some (o, q)) = elim (refuses o) [
    | true ↦ some (record q {
      intercepted = some (denied_result summarize q.call (reason_of o));
      denied = true;
    })
    | false ↦ next q
  ]

  -- the loop over the permission checks
  unfoldable pub run_checks : List (Hook W) → List (Hook W) → ℕ → Pass W → Option (Pass W)
  run_checks hooks [] step p = some p
  run_checks hooks (hook ∷ rest) step p =
      check_then (run_checks hooks rest step) (ask_check hooks hook step p)

  -- both loops for one call
  unfoldable pub intercept_call : List (Hook W) → ℕ → Pass W → Option (Pass W)
  intercept_call hooks step p = elim (run_gates hooks hooks step p) [
    | none ↦ none
    | some q ↦ unless_denied (run_checks hooks hooks step) q
  ]

  pub record Interception : Type 0 where
    pub world : W
    -- the calls as the hooks left them, each with its intercepted result
    pub calls : List (ToolCall × Option ToolResult)
    pub extra_context : List String

  -- `_intercept_tool_calls`: `step` is the step number of the first call in the list
  unfoldable pub intercept_tool_calls :
      List (Hook W) → List ToolCall → ℕ → W → List String → Option Interception
  intercept_tool_calls hooks [] step w extra =
      some (record { world = w; calls = []; extra_context = extra })
  intercept_tool_calls hooks (call ∷ calls) step w extra =
      (elim (intercept_call hooks step (record {
        world = w;
        call = call;
        intercepted = none;
        extra_context = extra;
        denied = false;
      })) [
        | none ↦ none
        | some q ↦ elim (intercept_tool_calls hooks calls (step + 1) q.world q.extra_context) [
          | none ↦ none
          | some r ↦ some (record r { calls = (q.call, q.intercepted) ∷ r.calls })
        ]
      ])
