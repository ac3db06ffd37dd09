-- ===== src/Registry/Retry.antt =====
-- Which results of a dispatch tell the caller to try again.
use looplet.Prelude.{Bool-cases, Option, arith, false, inl, inr, refl, some, true, ℕ, ◌≡◌, ◌⊎◌}
use looplet.Prelude.Dict.{Dict}
use looplet.Types.{ErrorKind, ToolCall, ToolError, error_kind, error_retriable, network, rate_limit}
use looplet.Registry.{
  Exception, Resource, Texts, ToolContext, ToolOutcome, ToolSpec, raised, returned,
}
use looplet.Registry.Prepare.{Checked-cases, prepare_call, prepare_dispatch}
use looplet.Registry.Dispatch.{
  Dispatched, Host, after_execute, answered, classify_by_name, classify_exception, dispatch,
  interrupted,
}

-- an error that may go away by itself
abbrev pub IsTransient : ErrorKind → Type 0
IsTransient k = (k ≡ network) ⊎ (k ≡ rate_limit)

-- An error that is not retriable, or is of a transient kind.
Sound : ToolError → Type 0
Sound e = (e.retriable ≡ false) ⊎ IsTransient e.kind

classify_by_name-Sound : (texts : Texts) (e : Exception) → Sound (classify_by_name texts e)
unfolding classify_by_name Sound
classify_by_name-Sound texts e = ground arith

classify_exception-Sound : (texts : Texts) (e : Exception) → Sound (classify_exception texts e)
unfolding classify_exception classify_by_name Sound
classify_exception-Sound texts e = ground arith

retriable-IsTransient : (e : ToolError) → Sound e → e.retriable ≡ true → IsTransient e.kind
unfolding Sound
retriable-IsTransient e (inl f) h = cc
retriable-IsTransient e (inr t) h = t

-- what a result that asks for another try implies
abbrev pub MayRetry : {W : Type 0} → W → Dispatched × W → Type 0
MayRetry w (answered result, after) =
    error_retriable result ≡ true
    → (after ≡ w) ⊎ ((k : ErrorKind) × (error_kind result ≡ some k) × IsTransient k)
MayRetry w (interrupted e, after) = Unit

module _ {W : Type 0} (texts : Texts) (tools : Dict (ToolSpec W)) (shared : Dict Resource) where
  after_execute-MayRetry :
      (host_of : Host W) (call : ToolCall) (spec : ToolSpec W) (ctx : Option ToolContext) (t0 : ℕ)
      (w : W) (run : ToolOutcome × W)
      → MayRetry w (after_execute texts tools shared host_of call spec ctx t0 run)
  unfolding after_execute error_retriable error_kind
  after_execute-MayRetry host_of call spec ctx t0 w (returned value warned, w') = λ h. cc
  after_execute-MayRetry host_of call spec ctx t0 w (raised e warned, w') =
      elim (Bool-cases (e.instance_of "Exception")) [
        | inl b ↦
            rw (after_execute, b)
              (λ h. inr (_, refl, retriable-IsTransient _ (classify_exception-Sound texts e) h))
        | inr b ↦ rw (after_execute, b) tt
      ]

  -- A dispatch whose result asks for another try has left the world as it was, or its error is a
  -- network error or a rate limit: no other failure of a tool's code is offered for a second run.
  pub dispatch-MayRetry :
      (host_of : Host W) (call : ToolCall) (ctx : Option ToolContext) (w : W)
      → MayRetry w (dispatch texts tools shared host_of call ctx w)
  unfolding dispatch
  dispatch-MayRetry host_of call ctx w =
      let prepared = prepare_call texts tools shared call in
      elim (Checked-cases (prepare_dispatch texts tools shared prepared ctx)) [
        | inl (r, e) ↦ rw (dispatch, e) (λ h. inl refl)
        | inr (spec, kwargs, e) ↦
            rw (dispatch, e)
              (after_execute-MayRetry host_of prepared spec ctx _ w (spec.execute kwargs w))
      ]
