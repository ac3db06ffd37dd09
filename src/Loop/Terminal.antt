-- ===== src/Loop/Terminal.antt =====
-- The terminal call of a turn, the part of `_composable_loop_impl` in src/looplet/loop.py that follows
-- the regular calls: the quality gates, the output schema, and what becomes of the run. The context of
-- the call, the dispatch and what is done with a step (the list of steps, the history, the observers,
-- the checkpoint) are parameters, and so is the wording of the schema's errors.
use Prim.Native.String.{◌++◌ as str_append}
use looplet.Prelude.{
  Bool, List, Option, String, [], false, if◌then◌else◌, map, none, some, str_eq, true, ℕ, ◌∷◌,
}
use looplet.Prelude.Dict.{Dict, lookup}
use looplet.Value.{Fields, Value, bool, dict, end, field, get, text, bool, field, end, dict, text}
use looplet.Types.{Step, ToolCall, ToolResult}
use looplet.Lifecycle.{
  LoopContext, Update, completed, finalizing, invalid_run_transition, ok, set_run_lifecycle,
  terminal,
}
use looplet.Validation.{OutputSchema, Violation, validate_args}
use looplet.Validation.Typed.{values_of}
use looplet.Registry.Arguments.{set_field}
use looplet.HookDecision.{HookDecision, is_block, no_effect}
use looplet.HookDecision.Normalize.{
  HookReturn, Normalized, normal, normalize_hook_return, type_error,
}
use looplet.Loop.{Hook, Ran, Recorder, emit_hook_decision_event}
use looplet.Loop.PostDispatch.{PostDispatch, run_post_dispatch_hooks}

-- a hook with its `check_done`
pub record Gate (W : Type 0) : Type 0 where
  pub hook : Hook W
  pub check_done : Option (W → ToolCall → ℕ → Ran W ToolCall)

-- where the gates are: the world, the call, and `gate_warning`
pub record Gated (W : Type 0) : Type 0 where
  pub world : W
  pub tool_call : ToolCall
  pub warning : Option String

-- the decision that stands for a gate that raised
abbrev pub failed_gate : String → HookDecision
failed_gate name = record no_effect {
  block =
      some (
        str_append "Quality gate " (str_append name " failed; the final answer was not accepted."));
  metadata = field "hook_error" (bool true) end;
}

abbrev pub decision_of : String → Normalized → Option HookDecision
decision_of name type_error = some (failed_gate name)
decision_of name (normal d) = d

abbrev pub gate_decision : String → Option HookReturn → Option HookDecision
gate_decision name none = some (failed_gate name)
gate_decision name (some v) = decision_of name (normalize_hook_return v "check_done")

-- `decision.block or "blocked by hook"`
abbrev pub block_text : Option String → String
block_text none = "blocked by hook"
block_text (some s) = if str_eq s "" then "blocked by hook" else s

-- the texts and host functions around the terminal call
pub record TerminalHost (W C : Type 0) : Type 0 where
  pub outcomes : Dict (Option OutputSchema)
  pub equal : Value → Value → Bool
  pub sorted : List String → List String
  pub error_text : List Violation → String
  pub metadata_of : ToolCall → List ToolCall → Fields
  pub build_tool_ctx : ToolCall → ℕ → W → C
  pub save_pending_dispatch : ToolCall → ℕ → W → W
  pub dispatch : ToolCall → C → W → ToolResult × W
  pub settle_rejected : Step → W → W
  pub settle_accepted : Step → W → W

-- how a turn with a terminal call ends: an exception, a rejected answer, or the end of the run
pub data TerminalEnd (W : Type 0) : Type 0 where
  failed_with : TerminalEnd W
  rejected : Step → LoopContext → W → TerminalEnd W
  accepted : Step → LoopContext → W → TerminalEnd W

module _ {W : Type 0} (recorder : Recorder W) (hooks : List (Hook W)) where
  -- what follows one gate: the later gates are asked if it does not block
  unfoldable pub after_check_done :
      (W → ToolCall → Gated W) → String → ℕ → W → ToolCall → Option HookDecision → Gated W
  after_check_done next name step w call none = next w call
  after_check_done next name step w call (some d) =
      let w' = emit_hook_decision_event recorder hooks d "check_done" name step w in
      let later = next w' call in
      if is_block d
      then record { world = w'; tool_call = call; warning = some (block_text d.block) }
      else later

  abbrev pub ask_check_done :
      (W → ToolCall → Gated W)
      → String
      → Option (W → ToolCall → ℕ → Ran W ToolCall)
      → ℕ
      → W
      → ToolCall
      → Gated W
  ask_check_done next name none step w call = next w call
  ask_check_done next name (some check) step w call =
      let ran = check w call step in
      after_check_done next name step ran.world ran.handed (gate_decision name ran.answer)

  unfoldable pub ask_gates : List (Gate W) → ℕ → W → ToolCall → Gated W
  ask_gates [] step w call = record { world = w; tool_call = call; warning = none }
  ask_gates (gate ∷ gates) step w call =
      ask_check_done (ask_gates gates step) gate.hook.name gate.check_done step w call

module _ {W C : Type 0} (host_of : TerminalHost W C) where
  abbrev pub schema_warning : Option (Option OutputSchema) → ToolCall → Option String
  schema_warning none call = none
  schema_warning (some none) call = none
  schema_warning (some (some schema)) call =
      let r = validate_args host_of.equal host_of.sorted schema (values_of call.args) in
      if r.valid
      then none
      else some (str_append "Output schema validation failed: " (host_of.error_text r.errors))

  -- `_completion_gate_warning`
  unfoldable pub completion_gate_warning : ToolCall → Option String → Option String
  completion_gate_warning call (some warning) = some warning
  completion_gate_warning call none = schema_warning (lookup call.tool host_of.outcomes) call

  -- `_rejected_terminal_step`
  unfoldable pub rejected_terminal_step : ToolCall → ℕ → String → Fields → Step
  rejected_terminal_step call step warning metadata = record {
    number = step;
    tool_call = call;
    tool_result = record {
      tool = call.tool;
      args_summary = "rejected";
      payload = dict (field "rejected" (bool true) (field "reason" (text warning) end));
      error = some warning;
      error_detail = none;
      duration_ms = 0;
      result_key = none;
      call_id = none;
      warnings = [];
      metadata = end;
    };
    metadata = set_field "terminal_accepted" (bool false) metadata;
  }

  abbrev pub is_text_value : Option Value → String → Bool
  is_text_value (some (text s)) t = str_eq s t
  is_text_value _ t = false

  -- the result of a terminal call: the message of the assistant itself, or that of the tool
  unfoldable pub terminal_result : ToolCall → ℕ → W → ToolResult × W
  terminal_result call step w =
      if is_text_value (get "completion_source" call.metadata) "assistant_message"
      then (
        record {
          tool = call.tool;
          args_summary = "assistant message";
          payload = dict call.args;
          error = none;
          error_detail = none;
          duration_ms = 0;
          result_key = none;
          call_id = none;
          warnings = [];
          metadata = end;
        },
        w,
      )
      else (let ctx = host_of.build_tool_ctx call step w in
          host_of.dispatch call ctx (host_of.save_pending_dispatch call step w))

  abbrev pub fields_of_payload : Value → Fields
  fields_of_payload (dict fields) = fields
  fields_of_payload _ = end

  -- the step of a terminal call whose result is an error, and of one whose result is none
  abbrev pub failed_step : ℕ → ToolCall → ToolResult → String → Fields → Step
  failed_step step call answer reason metadata = record {
    number = step;
    tool_call = call;
    tool_result = record answer {
      payload = dict (
          set_field "reason" (text reason)
            (set_field "rejected" (bool true) (fields_of_payload answer.payload)));
      error = some reason;
    };
    metadata = set_field "terminal_accepted" (bool false) metadata;
  }

  abbrev pub done_step : ℕ → ToolCall → ToolResult → Fields → Step
  done_step step call answer metadata = record {
    number = step;
    tool_call = call;
    tool_result = answer;
    metadata = set_field "terminal_accepted" (bool true) metadata;
  }

  -- the end of the run, or the error of its lifecycle
  abbrev pub complete : Step → Update Unit × LoopContext → W → TerminalEnd W
  complete step (ok _, c) w = accepted step c (host_of.settle_accepted step w)
  complete step (invalid_run_transition s p t q, c) w = failed_with

  abbrev pub end_by : Option String → ℕ → PostDispatch W → Fields → LoopContext → TerminalEnd W
  end_by (some reason) step p metadata c =
      let s = failed_step step p.tool_call p.tool_result reason metadata in
      rejected s c (host_of.settle_rejected s p.world)
  end_by none step p metadata c =
      complete (done_step step p.tool_call p.tool_result metadata)
        (set_run_lifecycle c (some completed) (some terminal) (some "done") (some p.tool_call.tool))
        p.world

  abbrev pub after_hooks : Option (PostDispatch W) → ℕ → Fields → LoopContext → TerminalEnd W
  after_hooks none step metadata c = failed_with
  after_hooks (some p) step metadata c = end_by p.tool_result.error step p metadata c

module _ {W C : Type 0} (recorder : Recorder W) (gates : List (Gate W))
    (host_of : TerminalHost W C) where
  abbrev pub hooks_of : List (Hook W)
  hooks_of = map (λ g. g.hook) gates

  -- a call that passed its gates is dispatched
  unfoldable pub run_accepted : ToolCall → List ToolCall → ℕ → LoopContext → W → TerminalEnd W
  unfolding terminal_result
  run_accepted call ignored step c w =
      let (answer, w') = terminal_result host_of call step w in
      after_hooks host_of
        (run_post_dispatch_hooks recorder hooks_of false hooks_of step (record {
          world = w';
          tool_call = call;
          tool_result = answer;
          extra_context = [];
          stop_reason = none;
        }))
        step (host_of.metadata_of call ignored) c

  abbrev pub decide_terminal :
      Option String → ToolCall → List ToolCall → ℕ → LoopContext → W → TerminalEnd W
  decide_terminal none call ignored step c w = run_accepted call ignored step c w
  decide_terminal (some warning) call ignored step c w =
      let s = rejected_terminal_step host_of call step warning (host_of.metadata_of call ignored) in
      rejected s c (host_of.settle_rejected s w)

  abbrev pub run_gated :
      ToolCall → List ToolCall → ℕ → Update Unit × LoopContext → W → TerminalEnd W
  run_gated call ignored step (invalid_run_transition s p t q, c) w = failed_with
  run_gated call ignored step (ok _, c) w =
      let g = ask_gates recorder hooks_of gates step w call in
      decide_terminal (completion_gate_warning host_of g.tool_call g.warning) g.tool_call ignored
        step c g.world

  -- the terminal call of a turn, with the calls behind it
  unfoldable pub run_terminal : ToolCall → List ToolCall → ℕ → LoopContext → W → TerminalEnd W
  unfolding run_accepted ask_gates completion_gate_warning rejected_terminal_step
  run_terminal call ignored step c w =
      run_gated call ignored step (set_run_lifecycle c none (some finalizing) none none) w
