-- ===== src/Resilient.antt =====
-- The retrying backend of src/looplet/resilient.py. One call of the wrapped backend with its timeout,
-- and the sleep before another try, act on the host's world and are parameters.
pub mod Attempts
mod Tests
use looplet.Prelude.{
  Bool, List, Option, String, [], false, if◌then◌else◌, ltb, none, not, some, suc, zero, ℕ, ◌++◌,
  ◌+◌, ◌||◌, ◌∷◌,
}

-- an exception, with the classes it is an instance of
pub record BackendError : Type 0 where
  pub message : String
  pub instance_of : String → Bool

-- `retry_on`: the function of the module, or one of the caller's
pub data RetryOn : Type 0 where
  default_retry_on : RetryOn
  custom : (BackendError → Bool) → RetryOn

-- `_default_retry_on`, or the caller's test
unfoldable pub retries_on : RetryOn → BackendError → Bool
retries_on default_retry_on e = not (
    e.instance_of "KeyboardInterrupt"
    || (e.instance_of "SystemExit" || e.instance_of "_LocalTimeout"))
retries_on (custom test) e = test e

-- `isinstance(exc, _LocalTimeout) and self._retry_on is _default_retry_on`
unfoldable pub abandoned : RetryOn → BackendError → Bool
abandoned default_retry_on e = e.instance_of "_LocalTimeout"
abandoned (custom test) e = false

pub data BackendAnswer (V : Type 0) : Type 0 where
  value : V → BackendAnswer V
  error : BackendError → BackendAnswer V

pub record ResilientBackend (V W : Type 0) : Type 0 where
  pub retries : ℕ
  pub retry_on : RetryOn
  pub supports_single_model_request : Bool
  pub call : W → BackendAnswer V × W
  pub sleep : ℕ → W → W

-- the constructor; `none` is its `ValueError`
unfoldable pub resilient_backend :
    {V W : Type 0} → ResilientBackend V W → Option (ResilientBackend V W)
resilient_backend b = if ltb b.retries 1 then none else some b

-- what a request comes to: a value, the exception of the wrapped backend, a `RetryExhausted` with its
-- attempts, or a `TerminalLLMError` with its reason
pub data Reply (V : Type 0) : Type 0 where
  returned : V → Reply V
  raised : BackendError → Reply V
  exhausted : List BackendError → Reply V
  terminal : String → Reply V

-- the request that is under way in this context: a single model request, a retried one, or none
pub data Scope : Type 0 where
  single_request retry_active outermost : Scope

module _ {V W : Type 0} (b : ResilientBackend V W) where
  -- `_owned_attempt` from an attempt on, with the attempts left and the errors so far
  unfoldable pub owned_attempt : ℕ → ℕ → List BackendError → W → Reply V × W
  owned_attempt zero attempt errors w = (exhausted errors, w)
  owned_attempt (suc left) attempt errors w =
      let (answer, w') = b.call w in
      elim answer [
        | value v ↦ (returned v, w')
        | error e ↦
            if abandoned b.retry_on e
            then (exhausted (errors ++ e ∷ []), w')
            else if not (retries_on b.retry_on e)
            then (raised e, w')
            else (elim left [
              | zero ↦ (exhausted (errors ++ e ∷ []), w')
              | suc more ↦ owned_attempt left (attempt + 1) (errors ++ e ∷ []) (b.sleep attempt w')
            ])
      ]

  -- a call without a retry, whose local timeout ends the run
  unfoldable pub single_attempt : W → Reply V × W
  single_attempt w =
      let (answer, w') = b.call w in
      elim answer [
        | value v ↦ (returned v, w')
        | error e ↦
            if e.instance_of "_LocalTimeout" then (terminal "llm_error", w') else (raised e, w')
      ]

  abbrev pub reply_of : BackendAnswer V → Reply V
  reply_of (value v) = returned v
  reply_of (error e) = raised e

  -- `_attempt`
  unfoldable pub attempt_in : Scope → W → Reply V × W
  attempt_in single_request w =
      if b.supports_single_model_request
      then single_attempt w
      else (terminal "unsupported_context", w)
  attempt_in retry_active w = let (answer, w') = b.call w in (reply_of answer, w')
  attempt_in outermost w = owned_attempt b.retries 1 [] w
