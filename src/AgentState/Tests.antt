-- ===== src/AgentState/Tests.antt =====
-- The budget of steps at a concrete state.
use looplet.Prelude.{String, [], none, refl, some, true, ◌∷◌, ◌≡◌}
use looplet.Value.{Fields, bool, end, field, null, pos}
use looplet.Types.{Step, ToolCall}
use looplet.AgentState.{
  DefaultState, budget_remaining, charged_step_count, prepare_tool_turn, set_budget_remaining,
  step_charge,
}

abbrev call_of : String → ToolCall
call_of tool = record {
  ident = 0;
  tool = tool;
  args = end;
  reasoning = "";
  call_id = "";
  metadata = end;
}

abbrev step : Fields → Step
step metadata = record {
  number = 1;
  tool_call = call_of "read";
  tool_result = record {
    tool = "read";
    args_summary = "";
    payload = null;
    error = none;
    error_detail = none;
    duration_ms = 0;
    result_key = none;
    call_id = none;
    warnings = [];
    metadata = end;
  };
  metadata = metadata;
}

abbrev state : DefaultState
state = record { steps = step end ∷ []; max_steps = 5; budget_offset = 0 }

abbrev restored : DefaultState
restored = record state { budget_offset = 2 }

abbrev free : Step
free = step (field "budget_free" (bool true) end)

restored-set : set_budget_remaining (pos 2) state ≡ some restored
unfolding set_budget_remaining charged_step_count step_charge
restored-set = refl

-- of three calls two are admitted, and the second ends the run
two_admitted :
    prepare_tool_turn
      (λ call. call)
      (λ calls skipped. calls)
      ("done" ∷ [])
      restored
      (call_of "read" ∷ call_of "done" ∷ call_of "read" ∷ [])
    ≡ some (record { calls = call_of "read" ∷ call_of "done" ∷ []; terminal_index = some 1 })
unfolding prepare_tool_turn budget_remaining charged_step_count step_charge
two_admitted = refl
