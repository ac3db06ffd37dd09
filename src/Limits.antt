-- ===== src/Limits.antt =====
-- The dispatch guards of src/looplet/limits.py: `ToolCallBudgetHook` and `PerToolLimitHook`. How
-- Python writes numbers into a message is the parameter `Wording`.
pub mod Admitted
pub mod PerTool
mod Tests
use looplet.Prelude.{
  Option, String, [], false, if◌then◌else◌, leb, none, or_else, some, suc, zero, ℕ, ◌+◌, ◌∷◌,
}
use looplet.Prelude.Dict.{Dict, insert, lookup}
use looplet.Value.{Fields, end, field, int, negsuc, null, pos, ℤ}
use looplet.Types.{ToolCall, ToolResult, validation}
use looplet.HookDecision.{HookDecision, stop_with}

-- the f-string of an exhausted budget, and `message.format(tool=.., limit=.., used=..)`
pub record Wording : Type 0 where
  pub exhausted : ℕ → ℕ → String
  pub format : String → String → ℕ → ℕ → String

-- a constructor's result
pub data Built (A : Type 0) : Type 0 where
  built : A → Built A
  value_error : Built A
  no_limit_error : Built A

-- the error result of a call that a limit refuses: a validation error, not retriable
abbrev pub refusal : String → String → Fields → ToolResult
refusal tool message context = record {
  tool = tool;
  args_summary = "";
  payload = null;
  error = some message;
  error_detail = some (record {
    kind = validation;
    message = message;
    retriable = false;
    context = context;
    recovery_hint = none;
  });
  duration_ms = 0;
  result_key = none;
  call_id = none;
  warnings = [];
  metadata = end;
}

-- `ToolCallBudgetHook`
pub record ToolCallBudgetHook : Type 0 where
  pub max_calls : ℕ
  pub calls : ℕ

-- the constructor
unfoldable pub tool_call_budget_hook : ℤ → Built ToolCallBudgetHook
tool_call_budget_hook (pos zero) = value_error
tool_call_budget_hook (pos (suc n)) = built (record { max_calls = suc n; calls = 0 })
tool_call_budget_hook (negsuc n) = value_error

-- `PerToolLimitHook`
pub record PerToolLimitHook : Type 0 where
  pub limits : Dict ℕ
  pub default_limit : Option ℕ
  pub message : String
  pub counts : Dict ℕ

-- an integer that is not negative
abbrev natural : ℤ → Option ℕ
natural (pos n) = some n
natural (negsuc n) = none

naturals : Dict ℤ → Option (Dict ℕ)
naturals [] = some []
naturals ((k, v) ∷ d) = elim (naturals d) [
  | none ↦ none
  | some d' ↦ elim (natural v) [ none ↦ none | some n ↦ some ((k, n) ∷ d') ]
]

-- the constructor: negative limits are a `ValueError`, no limit at all is a `TypeError`
unfoldable pub per_tool_limit_hook : Option (Dict ℤ) → Option ℤ → String → Built PerToolLimitHook
unfolding naturals
per_tool_limit_hook none none message = no_limit_error
per_tool_limit_hook none (some n) message = elim (natural n) [
  | none ↦ value_error
  | some l ↦ built (record { limits = []; default_limit = some l; message = message; counts = [] })
]
per_tool_limit_hook (some d) none message = elim (naturals d) [
  | none ↦ value_error
  | some ls ↦ built (record { limits = ls; default_limit = none; message = message; counts = [] })
]
per_tool_limit_hook (some d) (some n) message = elim (naturals d) [
  | none ↦ value_error
  | some ls ↦ elim (natural n) [
    | none ↦ value_error
    | some l ↦
        built (record { limits = ls; default_limit = some l; message = message; counts = [] })
  ]
]

-- `self._limits.get(tool, self._default_limit)`
unfoldable pub limit_of : PerToolLimitHook → String → Option ℕ
limit_of h tool = elim (lookup tool h.limits) [ some n ↦ some n | none ↦ h.default_limit ]

-- `self._counts[tool]`, of a `Counter`
unfoldable pub used_of : PerToolLimitHook → String → ℕ
used_of h tool = or_else (lookup tool h.counts) 0

-- `reset`
unfoldable pub reset_counts : PerToolLimitHook → PerToolLimitHook
reset_counts h = record h { counts = [] }

module _ (wording : Wording) where
  -- `ToolCallBudgetHook.pre_dispatch`: a result refuses the call
  unfoldable pub reserve_call :
      ToolCall → ToolCallBudgetHook → Option ToolResult × ToolCallBudgetHook
  reserve_call call h =
      if leb h.max_calls h.calls
      then (
        some (
            refusal call.tool (wording.exhausted h.calls h.max_calls) (
              field "tool_call_budget" (int (pos h.max_calls))
                (field "used" (int (pos h.calls)) end))),
        h,
      )
      else (none, record h { calls = h.calls + 1 })

  -- `PerToolLimitHook.pre_dispatch`. (A `ToolCall` has no `args_summary`.)
  unfoldable pub count_call : ToolCall → PerToolLimitHook → Option ToolResult × PerToolLimitHook
  count_call call h = elim (limit_of h call.tool) [
    | none ↦ (none, h)
    | some limit ↦
        let used = used_of h call.tool in
        if leb limit used
        then (
          some (
              refusal call.tool (wording.format h.message call.tool limit used)
                (field "per_tool_limit" (int (pos limit)) (field "used" (int (pos used)) end))),
          h,
        )
        else (none, record h { counts = insert call.tool (used + 1) h.counts })
  ]

-- `ToolCallBudgetHook.post_dispatch`
unfoldable pub stop_when_spent : ToolCallBudgetHook → Option HookDecision
stop_when_spent h = if leb h.max_calls h.calls then some (stop_with "tool_call_budget") else none
