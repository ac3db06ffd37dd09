-- ===== src/Recovery/Tests.antt =====
-- The recovery registry at concrete failures.
use looplet.Prelude.{List, [], min, refl, ◌∷◌, ◌≡◌}
use looplet.Prelude.Meter.{grants, requests}
use looplet.Value.{Fields, end}
use looplet.Recovery.{
  FailureScenario, attempt_recovery, get_attempts, parse_error, register, scenario_value, timeout,
}
use looplet.Recovery.Default.{build_default_registry}
use looplet.Recovery.Attempts.{attempts_granted-left, attempts_left, scenario_meter}

abbrev failures : List (FailureScenario × Fields)
failures =
    (parse_error, end)
    ∷ (timeout, end)
    ∷ (parse_error, end)
    ∷ (parse_error, end)
    ∷ (timeout, end)
    ∷ (parse_error, end)
    ∷ []

-- two parse errors are recovered, the other two are not
parse_errors : grants (scenario_meter parse_error) failures build_default_registry ≡ 2
unfolding build_default_registry register attempt_recovery get_attempts scenario_value
parse_errors = refl

attempts_granted-left_example :
    grants (scenario_meter timeout) failures build_default_registry
    ≡ min
        (attempts_left timeout build_default_registry)
        (requests (scenario_meter timeout) failures)
attempts_granted-left_example = attempts_granted-left timeout failures build_default_registry
