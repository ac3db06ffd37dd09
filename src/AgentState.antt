-- ===== src/AgentState.antt =====
-- The budget of steps: `DefaultState` of src/looplet/types.py, and the part of a tool turn that the
-- budget admits, `_prepare_tool_turn` of src/looplet/loop.py.
pub mod Charge
mod Tests
use looplet.Prelude.{
  Bool, List, Option, String, [], drop, false, if◌then◌else◌, length, ltb, map, none, some, str_mem,
  suc, take, ℕ, ◌++◌, ◌+◌, ◌-◌, ◌==◌, ◌∷◌,
}
use looplet.Value.{Fields, bool, get, negsuc, pos, ℤ}
use looplet.Types.{Step, ToolCall}

-- the part of a `DefaultState` that the budget reads
pub record DefaultState : Type 0 where
  pub steps : List Step
  pub max_steps : ℕ
  pub budget_offset : ℕ

-- `_step_charge`
abbrev pub is_free : Fields → Bool
is_free metadata = elim (get "budget_free" metadata) [ some (bool b) ↦ b | _ ↦ false ]

unfoldable pub step_charge : Step → ℕ
step_charge step = if is_free step.metadata then 0 else 1

-- `_charged_step_count`
unfoldable pub charged_step_count : List Step → ℕ
charged_step_count [] = 0
charged_step_count (step ∷ steps) = step_charge step + charged_step_count steps

-- `budget_remaining`
unfoldable pub budget_remaining : DefaultState → ℕ
budget_remaining s = s.max_steps - s.budget_offset - charged_step_count s.steps

-- the setter; `none` is its `ValueError`
unfoldable pub set_budget_remaining : ℤ → DefaultState → Option DefaultState
set_budget_remaining (negsuc n) s = none
set_budget_remaining (pos value) s =
    some (record s { budget_offset = s.max_steps - value - charged_step_count s.steps })

-- `state.steps.append(..)` for each step
abbrev pub add_steps : List Step → DefaultState → DefaultState
add_steps more s = record s { steps = s.steps ++ more }

pub record ToolTurnPlan : Type 0 where
  pub calls : List ToolCall
  pub terminal_index : Option ℕ

-- the first call of a tool that ends the run
abbrev pub first_terminal : List String → List ToolCall → Option ℕ
first_terminal outcomes [] = none
first_terminal outcomes (call ∷ calls) =
    let later = first_terminal outcomes calls in
    if str_mem call.tool outcomes
    then some 0
    else elim later [ none ↦ none | some i ↦ some (suc i) ]

-- `_prepare_tool_turn`; the preparation of one call and the record of the turn on the admitted calls
-- are parameters
unfoldable pub prepare_tool_turn :
    (ToolCall → ToolCall)
    → (List ToolCall → List ToolCall → List ToolCall)
    → List String
    → DefaultState
    → List ToolCall
    → Option ToolTurnPlan
prepare_tool_turn prepare annotate outcomes s calls =
    let remaining = budget_remaining s in
    let prepared = map prepare (take remaining calls) in
    let admitted =
      if ltb 1 (length calls) then annotate prepared (drop remaining calls) else prepared in
    if remaining == 0
    then none
    else some (record { calls = admitted; terminal_index = first_terminal outcomes admitted })
