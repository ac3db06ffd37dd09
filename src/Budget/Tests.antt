-- ===== src/Budget/Tests.antt =====
-- The trigger and the telemetry at concrete budgets.
use looplet.Prelude.{[], none, refl, some, ◌≡◌}
use looplet.Budget.{
  BudgetTelemetry, ContextBudget, check_request, classify, context_budget, error, peak_tier,
  sample_prompt, too_large,
}

abbrev small : ContextBudget
small = record { context_window = 100; warning_at = 60; error_at = 80; compact_buffer = 5 }

-- thresholds out of order are refused
refused_budget : context_budget (record small { error_at = 95 }) ≡ none
unfolding context_budget
refused_budget = refl

abbrev empty_telemetry : BudgetTelemetry
empty_telemetry = record { budget = small; samples = [] }

peak_of_three :
    peak_tier (sample_prompt 10 3 (sample_prompt 85 2 (sample_prompt 61 1 empty_telemetry))) ≡ error
unfolding peak_tier sample_prompt classify
peak_of_three = refl

too_big : check_request 10 (some 11) ≡ too_large 11
unfolding check_request
too_big = refl

small_passes : context_budget small ≡ some small
unfolding context_budget
small_passes = refl
