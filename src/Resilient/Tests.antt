-- ===== src/Resilient/Tests.antt =====
-- A retried request at concrete answers.
use looplet.Prelude.{String, [], arith, false, if◌then◌else◌, refl, suc, ℕ, ◌==◌, ◌∷◌, ◌≡◌}
use looplet.Resilient.{
  BackendAnswer, BackendError, ResilientBackend, abandoned, attempt_in, default_retry_on, error,
  exhausted, outermost, owned_attempt, retries_on, returned, value,
}
use looplet.Resilient.Attempts.{Settled, owned_attempt-Settled}

abbrev flaky : BackendError
flaky = record { message = "busy"; instance_of = λ c. false }

-- the third answer is a text
abbrev answers : ℕ → BackendAnswer String
answers n = if n == 2 then value "done" else error flaky

abbrev backend : ResilientBackend String ℕ
backend = record {
  retries = 3;
  retry_on = default_retry_on;
  supports_single_model_request = false;
  call = λ n. (answers n, suc n);
  sleep = λ attempt n. n;
}

third_time : attempt_in backend outermost 0 ≡ (returned "done", 3)
unfolding attempt_in owned_attempt abandoned retries_on
third_time = refl

two_are_too_few :
    attempt_in (record backend { retries = 2 }) outermost 0 ≡ (exhausted (flaky ∷ flaky ∷ []), 2)
unfolding attempt_in owned_attempt abandoned retries_on
two_are_too_few = refl

owned_attempt-Settled_example : Settled answers backend 3 0 [] (owned_attempt backend 3 1 [] 0)
owned_attempt-Settled_example =
    owned_attempt-Settled answers backend (λ n. refl) (λ i n. refl) 3 1 0 [] (omega arith)
