-- ===== src/Loop/Tests.antt =====
-- The interception and stop theorems at concrete hooks.
use looplet.Prelude.{
  Option, String, [], false, inl, inr, is_some, none, refl, some, some-injective, subst, true, ℕ,
  ◌+◌, ◌∷◌, ◌≡◌,
}
use looplet.Value.{Fields, end, field, text}
use looplet.Types.{ToolCall, ToolResult}
use looplet.HookDecision.{deny, is_noop, is_stop, stop_with}
use looplet.HookDecision.Normalize.{
  boolean, close_gate, closed, coerce, decided, is_gate, normalize_hook_return, result, words,
}
use looplet.Loop.{Hook, Ran, Recorder, emit_hook_decision_event, notify}
use looplet.Loop.Intercept.{
  Pass, after_return, apply_decision, apply_optional, ask_check, ask_gate, check_then, gate_then,
  intercept_call, intercept_tool_calls, run_checks, run_gates, unless_denied,
}
use looplet.Loop.Turn.{
  Tools, TurnHost, consume, dispatch_group, finished, run_group, run_groups, run_turn,
}
use looplet.Loop.Unreached.{run_turn-unreached}
use looplet.Loop.Guards.{Guards, Keeps}
use looplet.Loop.Denial.{AllRefused, intercept_tool_calls-AllRefused}
use looplet.Loop.PostDispatch.{PostDispatch, run_post_dispatch_hooks}
use looplet.Loop.Stop.{post_step_stop_reason}
use looplet.Loop.Stopping.{StopsAfterTool, Unraised, run_post_dispatch_hooks-stops}
use looplet.Loop.Ending.{StopsAfterStep, post_step_stop_reason-stops}

-- the world counts the calls of hook methods
abbrev recorder : Recorder ℕ
recorder = record { record_policy_decision = λ d w. w }

abbrev rm_call : ToolCall
rm_call = record {
  ident = 1;
  tool = "rm";
  args = field "path" (text "/") end;
  reasoning = "";
  call_id = "c1";
  metadata = end;
}

abbrev cached : ToolResult
cached = record {
  tool = "rm";
  args_summary = "";
  payload = text "cached";
  error = none;
  error_detail = none;
  duration_ms = 0;
  result_key = none;
  call_id = none;
  warnings = [];
  metadata = end;
}

abbrev silent : String → Hook ℕ
silent name = record {
  name = name;
  pre_dispatch = none;
  check_permission = none;
  post_dispatch = none;
  should_stop = none;
  on_event = none;
}

-- answers every call from a cache
abbrev ask_cache : ℕ → ToolCall → ℕ → Ran ℕ ToolCall
ask_cache w call step = record { world = w + 1; handed = call; answer = some (result cached) }

abbrev cache : Hook ℕ
cache = record (silent "Cache") { pre_dispatch = some ask_cache }

-- refuses every call
abbrev ask_guard : ℕ → ToolCall → Ran ℕ ToolCall
ask_guard w call = record { world = w + 1; handed = call; answer = some (boolean false) }

abbrev guard : Hook ℕ
guard = record (silent "Guard") { check_permission = some ask_guard }

abbrev IsRm : ToolCall → Type 0
IsRm call = call.tool ≡ "rm"

cache-Keeps : Keeps IsRm cache
cache-Keeps = record {
  at_gate =
      λ f e w call step h. subst (λ f. (f w call step).handed.tool ≡ "rm") (some-injective _ _ e) h;
  at_check = λ f e w call h. cc;
  at_event = λ f e w payload call h t. cc;
}

guard-Keeps : Keeps IsRm guard
guard-Keeps = record {
  at_gate = λ f e w call step h. cc;
  at_check = λ f e w call h. subst (λ f. (f w call).handed.tool ≡ "rm") (some-injective _ _ e) h;
  at_event = λ f e w payload call h t. cc;
}

guard-Guards : Guards IsRm guard
unfolding normalize_hook_return coerce closed close_gate deny is_gate
guard-Guards = record { check = ask_guard; has_check = refl; refuses_all = λ w call h. refl }

abbrev pass : Pass ℕ
pass = record { world = 0; call = rm_call; intercepted = none; extra_context = []; denied = false }

abbrev no_summary : Fields → String
no_summary args = ""

intercept_tool_calls-AllRefused_example :
    AllRefused recorder no_summary (rm_call ∷ rm_call ∷ []) (
      intercept_tool_calls recorder no_summary (cache ∷ guard ∷ []) (rm_call ∷ rm_call ∷ []) 3 0 [])
intercept_tool_calls-AllRefused_example =
    intercept_tool_calls-AllRefused recorder no_summary IsRm (λ call args h. h) (cache ∷ guard ∷ [])
      (rm_call ∷ rm_call ∷ []) 3 0 [] (cache-Keeps, (guard-Keeps, tt)) (inr (inl guard-Guards))
      (refl, (refl, tt))

-- Both hooks ran, and the cached result is gone.
intercept_call_ran : is_some (intercept_call recorder no_summary (cache ∷ guard ∷ []) 3 pass) ≡ true
unfolding intercept_call run_gates run_checks ask_gate ask_check after_return gate_then check_then
    unless_denied apply_optional apply_decision normalize_hook_return coerce closed close_gate
    is_gate emit_hook_decision_event notify is_noop deny
intercept_call_ran = refl

abbrev stop_now : ℕ → ToolCall × ToolResult → ℕ → Ran ℕ (ToolCall × ToolResult)
stop_now w handed step = record {
  world = w;
  handed = handed;
  answer = some (decided (stop_with "budget"));
}

abbrev add_note : ℕ → ToolCall × ToolResult → ℕ → Ran ℕ (ToolCall × ToolResult)
add_note w handed step = record { world = w; handed = handed; answer = some (words "note") }

abbrev stopper : Hook ℕ
stopper = record (silent "Stopper") { post_dispatch = some stop_now }

abbrev noter : Hook ℕ
noter = record (silent "Noter") { post_dispatch = some add_note }

stopper-StopsAfterTool : StopsAfterTool stopper
unfolding normalize_hook_return coerce closed close_gate is_gate stop_with is_stop
stopper-StopsAfterTool = record {
  method = stop_now;
  has_method = refl;
  always = λ w handed step. refl;
}

abbrev settled : PostDispatch ℕ
settled = record {
  world = 0;
  tool_call = rm_call;
  tool_result = cached;
  extra_context = [];
  stop_reason = none;
}

run_post_dispatch_hooks-stops_example :
    Unraised
      (λ q. is_some q.stop_reason ≡ true)
      (run_post_dispatch_hooks recorder [] true (noter ∷ stopper ∷ noter ∷ []) 2 settled)
run_post_dispatch_hooks-stops_example =
    run_post_dispatch_hooks-stops recorder [] true (noter ∷ stopper ∷ noter ∷ []) 2 settled
      (inr (inr (inl stopper-StopsAfterTool)))

abbrev always_done : ℕ → ℕ → ℕ → Ran ℕ Unit
always_done w step new_entities = record { world = w; handed = tt; answer = some (boolean true) }

abbrev done : Hook ℕ
done = record (silent "Done") { should_stop = some always_done }

done-StopsAfterStep : StopsAfterStep done
unfolding normalize_hook_return coerce closed close_gate is_gate stop_with is_stop
done-StopsAfterStep = record {
  method = always_done;
  has_method = refl;
  always = λ w step new_entities. refl;
}

stops_after_done :
    Unraised
      (λ (o : ℕ × Option String). is_some o.1 ≡ true)
      (post_step_stop_reason recorder (cache ∷ done ∷ []) 4 0 none 0)
stops_after_done =
    post_step_stop_reason-stops recorder (cache ∷ done ∷ []) 4 0 none 0
      (inr (inr (inl done-StopsAfterStep)))

abbrev turn_host : TurnHost ℕ ℕ
turn_host = record {
  build_tool_ctx = λ call step w. none;
  save_pending_dispatch = λ group calls step w. w;
  add_context = λ parts w. w;
  settle = λ step call result was_intercepted w. (false, w);
}

-- tools that count their runs by tens
abbrev counting : Tools ℕ ℕ
counting = record {
  dispatch = λ call ctx w. (cached, w + 10);
  dispatch_batch = λ calls ctxs w. none;
}

abbrev idle : Tools ℕ ℕ
idle = record { dispatch = λ call ctx w. (cached, w); dispatch_batch = λ calls ctxs w. none }

-- without hooks both calls of the turn reach the tools
both_reached :
    run_turn recorder no_summary [] turn_host counting false (rm_call ∷ rm_call ∷ []) 1 0
    ≡ finished 20
unfolding run_turn run_groups run_group intercept_tool_calls intercept_call run_gates run_checks
    unless_denied dispatch_group consume
both_reached = refl

run_turn-unreached_example :
    run_turn recorder no_summary
      (cache ∷ guard ∷ [])
      turn_host
      counting
      false
      (rm_call ∷ rm_call ∷ [])
      1
      0
    ≡ run_turn recorder no_summary
        (cache ∷ guard ∷ [])
        turn_host
        idle
        false
        (rm_call ∷ rm_call ∷ [])
        1
        0
run_turn-unreached_example =
    run_turn-unreached recorder no_summary (cache ∷ guard ∷ []) turn_host counting idle false IsRm
      (λ call args h. h) (cache-Keeps, (guard-Keeps, tt)) (inr (inl guard-Guards))
      (rm_call ∷ rm_call ∷ []) 1 0 (refl, (refl, tt))
