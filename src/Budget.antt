-- ===== src/Budget.antt =====
-- Token budgets of src/looplet/budget.py: the tiers of an estimate, the trigger of a compaction and
-- the telemetry. The estimate of a prompt's tokens is a parameter. Token counts are natural numbers.
pub mod Trigger
mod Tests
use looplet.Prelude.{
  Bool, List, Option, [], false, if◌then◌else◌, leb, ltb, none, not, some, true, ℕ, ◌&&◌, ◌++◌, ◌-◌,
  ◌==◌, ◌∷◌,
}

pub data BudgetTier : Type 0 where
  ok warning error blocking : BudgetTier

pub record ContextBudget : Type 0 where
  pub context_window : ℕ
  pub warning_at : ℕ
  pub error_at : ℕ
  pub compact_buffer : ℕ

abbrev pub blocking_at : ContextBudget → ℕ
blocking_at b = b.context_window - b.compact_buffer

-- the checks of `__post_init__`; `none` is its `ValueError`
unfoldable pub context_budget : ContextBudget → Option ContextBudget
context_budget b =
    if b.context_window == 0
    then none
    else if leb b.context_window b.compact_buffer
    then none
    else if not (ltb b.warning_at b.error_at && ltb b.error_at (blocking_at b))
    then none
    else some b

-- `classify`
unfoldable pub classify : ContextBudget → ℕ → BudgetTier
classify b estimated_tokens =
    if leb (blocking_at b) estimated_tokens
    then blocking
    else if leb b.error_at estimated_tokens
    then error
    else if leb b.warning_at estimated_tokens
    then warning
    else ok

-- the argument `fire_tier`
pub data FireTier : Type 0 where
  fire_warning fire_error : FireTier

pub record ThresholdCompactHook : Type 0 where
  pub budget : ContextBudget
  pub fire_tier : FireTier
  pub fired_at : List ℕ

-- `__init__` and `fired_at`
abbrev pub threshold_compact_hook : ContextBudget → FireTier → ThresholdCompactHook
threshold_compact_hook b fire_tier = record { budget = b; fire_tier = fire_tier; fired_at = [] }

-- the tiers at which the hook fires
abbrev pub fires : FireTier → BudgetTier → Bool
fires fire_tier blocking = true
fires fire_warning warning = true
fires fire_warning error = true
fires fire_error error = true
fires _ _ = false

-- `should_compact`, for the estimate of the current tokens
unfoldable pub should_compact : ℕ → ℕ → ThresholdCompactHook → Bool × ThresholdCompactHook
should_compact estimate step_num hook =
    if fires hook.fire_tier (classify hook.budget estimate)
    then (true, record hook { fired_at = hook.fired_at ++ step_num ∷ [] })
    else (false, hook)

pub record Sample : Type 0 where
  pub step_num : ℕ
  pub tier : BudgetTier
  pub estimate : ℕ

pub record BudgetTelemetry : Type 0 where
  pub budget : ContextBudget
  pub samples : List Sample

-- `pre_prompt`
unfoldable pub sample_prompt : ℕ → ℕ → BudgetTelemetry → BudgetTelemetry
sample_prompt estimate step_num t = record t {
  samples =
      t.samples
      ++ record { step_num = step_num; tier = classify t.budget estimate; estimate = estimate }
        ∷ [];
}

abbrev pub order : BudgetTier → ℕ
order ok = 0
order warning = 1
order error = 2
order blocking = 3

-- `max(.., key=order)`: the first of the highest tiers
abbrev pub highest : BudgetTier → List Sample → BudgetTier
highest best [] = best
highest best (s ∷ samples) =
    highest (if ltb (order best) (order s.tier) then s.tier else best) samples

-- `peak_tier`
unfoldable pub peak_tier : BudgetTelemetry → BudgetTier
peak_tier t = highest ok t.samples

-- `RequestTokenBudget`: the counter of the host answers `none` for what is no natural number
pub data RequestCheck : Type 0 where
  fits invalid_count : RequestCheck
  too_large : ℕ → RequestCheck

unfoldable pub check_request : ℕ → Option ℕ → RequestCheck
check_request max_input_tokens none = invalid_count
check_request max_input_tokens (some measured) =
    if ltb max_input_tokens measured then too_large measured else fits
