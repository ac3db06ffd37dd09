-- ===== src/Loop/CompletionTests.antt =====
-- Terminal calls at concrete gates.
use looplet.Prelude.{List, Option, [], false, inl, inr, none, refl, some, true, ℕ, ◌+◌, ◌∷◌, ◌≡◌}
use looplet.Prelude.Dict.{lookup}
use looplet.Value.{end, field, text, end, field, text}
use looplet.Types.{ToolCall, ToolResult}
use looplet.Lifecycle.{
  LoopContext, completed, dispatching, finalizing, is_terminal_status, running, set_run_lifecycle,
  terminal, valid_transition,
}
use looplet.Validation.{
  OutputSchema, allowed_errors, bad_type, field_errors, fields_errors, is_bool, isinstance,
  str_type, type_errors, validate_args,
}
use looplet.HookDecision.{is_block, is_noop, stop_with}
use looplet.HookDecision.Normalize.{
  close_gate, closed, coerce, decided, is_gate, normalize_hook_return, nothing,
}
use looplet.Loop.{Hook, Ran, Recorder, emit_hook_decision_event, notify}
use looplet.Loop.PostDispatch.{absorb, after_post, run_post_dispatch_hooks, settle_hook}
use looplet.Loop.Terminal.{
  Gate, TerminalEnd, TerminalHost, accepted, after_check_done, ask_gates, completion_gate_warning,
  done_step, failed_gate, failed_with, rejected, run_accepted, run_terminal, terminal_result,
}
use looplet.Loop.Completion.{
  IsDone, IsRejected, MeetsSchema, RejectsDone, run_terminal-accepted, run_terminal-IsRejected,
  with_dispatch,
}

abbrev observer : Recorder ℕ
observer = record { record_policy_decision = λ d w. w }

abbrev answer_call : ToolCall
answer_call = record {
  ident = 1;
  tool = "done";
  args = field "answer" (text "42") end;
  reasoning = "";
  call_id = "c1";
  metadata = end;
}

abbrev answered : ToolResult
answered = record {
  tool = "done";
  args_summary = "";
  payload = text "42";
  error = none;
  error_detail = none;
  duration_ms = 0;
  result_key = none;
  call_id = none;
  warnings = [];
  metadata = end;
}

abbrev plain_hook : Hook ℕ
plain_hook = record {
  name = "Plain";
  pre_dispatch = none;
  check_permission = none;
  post_dispatch = none;
  should_stop = none;
  on_event = none;
}

-- a gate that raises, and one that has nothing to say
abbrev check_broken : ℕ → ToolCall → ℕ → Ran ℕ ToolCall
check_broken w call step = record { world = w + 1; handed = call; answer = none }

abbrev check_silent : ℕ → ToolCall → ℕ → Ran ℕ ToolCall
check_silent w call step = record { world = w + 1; handed = call; answer = some nothing }

abbrev broken : Gate ℕ
broken = record { hook = plain_hook; check_done = some check_broken }

abbrev silent_gate : Gate ℕ
silent_gate = record { hook = plain_hook; check_done = some check_silent }

abbrev answer_schema : OutputSchema
answer_schema = record {
  fields =
      (
        "answer",
        record { field_type = some (str_type ∷ []); required = true; allowed_values = none },
      )
      ∷ [];
  strict = true;
}

abbrev terminal_host : TerminalHost ℕ ℕ
terminal_host = record {
  outcomes = ("done", some answer_schema) ∷ [];
  equal = λ v u. false;
  sorted = λ names. names;
  error_text = λ errors. "";
  metadata_of = λ call ignored. end;
  build_tool_ctx = λ call step w. w;
  save_pending_dispatch = λ call step w. w;
  dispatch = λ call ctx w. (answered, w + 10);
  settle_rejected = λ step w. w;
  settle_accepted = λ step w. w;
}

abbrev dispatching_run : LoopContext
dispatching_run = record {
  status = running;
  phase = dispatching;
  termination_reason = none;
  state = record {
    run_status = none;
    run_phase = none;
    termination_reason = none;
    accepted_terminal_tool = none;
    stop_reason = none;
    llm_calls = 0;
    metadata = none;
  };
  deadline_at = none;
  cancel_token = none;
}

abbrev end_of : List (Gate ℕ) → TerminalEnd ℕ
end_of gates = run_terminal observer gates terminal_host answer_call [] 3 dispatching_run 0

broken-RejectsDone : RejectsDone broken
unfolding is_block
broken-RejectsDone = record {
  check = check_broken;
  has_check = refl;
  always = λ w call step. (failed_gate "Plain", refl, refl);
}

run_terminal-IsRejected_example :
    IsRejected (end_of (silent_gate ∷ broken ∷ []))
    × (run_terminal observer
          (silent_gate ∷ broken ∷ [])
          (with_dispatch observer
            (silent_gate ∷ broken ∷ [])
            terminal_host
            (λ call ctx w. (answered, w)))
          answer_call
          []
          3
          dispatching_run
          0
        ≡ end_of (silent_gate ∷ broken ∷ []))
run_terminal-IsRejected_example =
    run_terminal-IsRejected observer (silent_gate ∷ broken ∷ []) terminal_host
      (λ call ctx w. (answered, w)) answer_call [] 3 dispatching_run 0
      (inr (inl broken-RejectsDone))

abbrev ended_run : LoopContext
ended_run =
    (set_run_lifecycle (set_run_lifecycle dispatching_run none (some finalizing) none none).1
      (some completed) (some terminal) (some "done") (some "done")).1

answer_accepted :
    end_of (silent_gate ∷ [])
    ≡ accepted (done_step terminal_host 3 answer_call answered end) ended_run 11
unfolding run_terminal run_accepted terminal_result ask_gates after_check_done
    completion_gate_warning set_run_lifecycle valid_transition is_terminal_status validate_args
    fields_errors field_errors type_errors bad_type is_bool isinstance allowed_errors
    run_post_dispatch_hooks settle_hook normalize_hook_return coerce closed close_gate is_gate
answer_accepted = refl

run_terminal-accepted_example :
    let g = ask_gates observer (plain_hook ∷ []) (silent_gate ∷ []) 3 0 answer_call in
    (g.warning ≡ none)
    × MeetsSchema observer
        (silent_gate ∷ [])
        terminal_host
        (lookup g.tool_call.tool terminal_host.outcomes)
        g.tool_call
    × IsDone observer
        (silent_gate ∷ [])
        terminal_host
        (done_step terminal_host 3 answer_call answered end)
        ended_run
run_terminal-accepted_example =
    run_terminal-accepted observer (silent_gate ∷ []) terminal_host answer_call [] 3 dispatching_run
      0 (done_step terminal_host 3 answer_call answered end) ended_run 11 answer_accepted

-- A hook that makes an error of the result and asks for a stop: the answer is rejected, and no end of
-- the run comes of the stop.
abbrev fail_and_stop : ℕ → ToolCall × ToolResult → ℕ → Ran ℕ (ToolCall × ToolResult)
fail_and_stop w handed step = record {
  world = w;
  handed = handed;
  answer = some (
      decided (record (stop_with "budget") {
        updated_result = some (record answered { error = some "unsupported" });
      }));
}

abbrev stopping_gate : Gate ℕ
stopping_gate = record {
  hook = record plain_hook { post_dispatch = some fail_and_stop };
  check_done = none;
}

abbrev run_of : TerminalEnd ℕ → Option LoopContext
run_of failed_with = none
run_of (rejected step c w) = some c
run_of (accepted step c w) = some c

stop_is_lost :
    run_of (end_of (stopping_gate ∷ []))
    ≡ some (set_run_lifecycle dispatching_run none (some finalizing) none none).1
unfolding run_terminal run_accepted terminal_result ask_gates after_check_done
    completion_gate_warning set_run_lifecycle valid_transition is_terminal_status validate_args
    fields_errors field_errors type_errors bad_type is_bool isinstance allowed_errors
    run_post_dispatch_hooks settle_hook normalize_hook_return coerce closed close_gate is_gate
    after_post absorb stop_with emit_hook_decision_event notify is_noop
stop_is_lost = refl
