-- ===== src/Recovery.antt =====
-- The recovery registry of src/looplet/recovery.py. A handler is the host's code; `none` is a handler
-- that raised. A dict keyed by a scenario is keyed by the scenario's value.
pub mod Default
pub mod Attempts
mod Tests
use looplet.Prelude.{
  Bool, Option, String, [], if◌then◌else◌, is_some, leb, none, or_else, some, ℕ, ◌+◌,
}
use looplet.Prelude.Dict.{Dict, insert, lookup}
use looplet.Value.{Fields}

pub data FailureScenario : Type 0 where
  parse_error prompt_too_long tool_error empty_result : FailureScenario
  repeated_tool stagnation llm_error timeout : FailureScenario

-- `scenario.value`
unfoldable pub scenario_value : FailureScenario → String
scenario_value parse_error = "parse_error"
scenario_value prompt_too_long = "prompt_too_long"
scenario_value tool_error = "tool_error"
scenario_value empty_result = "empty_result"
scenario_value repeated_tool = "repeated_tool"
scenario_value stagnation = "stagnation"
scenario_value llm_error = "llm_error"
scenario_value timeout = "timeout"

pub record RecoveryAction : Type 0 where
  pub action_type : String
  pub payload : Fields
  pub message : String

pub record RecoveryRecipe : Type 0 where
  pub scenario : FailureScenario
  pub handler : Fields → Option RecoveryAction
  pub max_attempts : ℕ
  pub description : String

pub record RecoveryRegistry : Type 0 where
  pub recipes : Dict RecoveryRecipe
  pub attempt_counts : Dict ℕ

-- the constructor
abbrev pub recovery_registry : RecoveryRegistry
recovery_registry = record { recipes = []; attempt_counts = [] }

-- `register`: a later recipe replaces an earlier one
unfoldable pub register : RecoveryRecipe → RecoveryRegistry → RecoveryRegistry
register recipe r = record r { recipes = insert (scenario_value recipe.scenario) recipe r.recipes }

-- `has_recipe`, `get_attempts` and `reset`
unfoldable pub has_recipe : FailureScenario → RecoveryRegistry → Bool
has_recipe s r = is_some (lookup (scenario_value s) r.recipes)

unfoldable pub get_attempts : FailureScenario → RecoveryRegistry → ℕ
get_attempts s r = or_else (lookup (scenario_value s) r.attempt_counts) 0

unfoldable pub reset : RecoveryRegistry → RecoveryRegistry
reset r = record r { attempt_counts = [] }

-- what an attempt comes to: no action, the handler's action, or the handler's exception
pub data Attempt : Type 0 where
  no_action : Attempt
  acted : RecoveryAction → Attempt
  handler_raised : Attempt

abbrev pub outcome_of : Option RecoveryAction → Attempt
outcome_of none = handler_raised
outcome_of (some a) = acted a

-- `attempt_recovery`
unfoldable pub attempt_recovery :
    FailureScenario → Fields → RecoveryRegistry → Attempt × RecoveryRegistry
attempt_recovery s context r = elim (lookup (scenario_value s) r.recipes) [
  | none ↦ (no_action, r)
  | some recipe ↦
      let current = get_attempts s r in
      if leb recipe.max_attempts current then (no_action, r) else (
        outcome_of (recipe.handler context),
        record r { attempt_counts = insert (scenario_value s) (current + 1) r.attempt_counts },
      )
]
