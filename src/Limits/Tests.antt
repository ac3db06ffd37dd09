-- ===== src/Limits/Tests.antt =====
-- The limits at concrete calls.
use looplet.Prelude.{List, String, [], none, refl, ◌∷◌, ◌≡◌}
use looplet.Value.{end, pos}
use looplet.Types.{ToolCall}
use looplet.Limits.{
  PerToolLimitHook, ToolCallBudgetHook, Wording, count_call, limit_of, no_limit_error,
  per_tool_limit_hook, reserve_call, tool_call_budget_hook, used_of, value_error,
}
use looplet.Limits.Admitted.{IsWithin, ask_all, passed, passed_of, reserve_calls-IsWithin}

abbrev wording : Wording
wording = record { exhausted = λ a b. "exhausted"; format = λ m t l u. m }

abbrev call_to : String → ToolCall
call_to tool = record {
  ident = 0;
  tool = tool;
  args = end;
  reasoning = "";
  call_id = "";
  metadata = end;
}

abbrev calls : List ToolCall
calls = call_to "bash" ∷ call_to "grep" ∷ call_to "bash" ∷ call_to "bash" ∷ call_to "grep" ∷ []

abbrev two_left : ToolCallBudgetHook
two_left = record { max_calls = 3; calls = 1 }

-- two calls pass
two_pass : passed (ask_all (reserve_call wording) calls two_left).0 ≡ 2
unfolding ask_all reserve_call
two_pass = refl

reserve_calls-IsWithin_example :
    IsWithin two_left calls (ask_all (reserve_call wording) calls two_left)
reserve_calls-IsWithin_example = reserve_calls-IsWithin wording calls two_left

abbrev bash_twice : PerToolLimitHook
bash_twice = record {
  limits = ("bash", 2) ∷ [];
  default_limit = none;
  message = "limit reached";
  counts = [];
}

bash_passes : passed_of "bash" (ask_all (count_call wording) calls bash_twice).0 ≡ 2
unfolding ask_all count_call limit_of used_of
bash_passes = refl

-- a limit of zero calls is no budget
no_budget : tool_call_budget_hook (pos 0) ≡ value_error
unfolding tool_call_budget_hook
no_budget = refl

unlimited : per_tool_limit_hook none none "" ≡ no_limit_error
unfolding per_tool_limit_hook
unlimited = refl
