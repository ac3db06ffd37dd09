-- ===== src/Loop/Stopping.antt =====
-- The hooks' answers after a tool call, and the stop that they ask for.
use looplet.Prelude.{
  Bool, Bool-cases, List, Option, Option-cases, String, [], false, inl, inr, is_some, keep_if, none,
  refl, some, true, ℕ, ◌∷◌, ◌≡◌, ◌⊎◌,
}
use looplet.Types.{LifecycleEvent, ToolCall, ToolResult, event_value}
use looplet.HookDecision.{is_stop}
use looplet.HookDecision.Normalize.{
  HookReturn, Normalized, Normalized-cases, decided, normal, normalize_hook_return, type_error,
}
use looplet.Loop.{EventPayload, Hook, Ran, Recorder}
use looplet.Loop.PostDispatch.{
  PostDispatch, absorb, after_post, after_post_event, latest, post_event_answer,
  run_post_dispatch_hooks, settle_hook,
}

-- what a method answered amounts to a stop in this slot; a raise ends the run
abbrev pub IsStopped : Normalized → Type 0
IsStopped type_error = Unit
IsStopped (normal none) = ⊥
IsStopped (normal (some d)) = is_stop d ≡ true

abbrev pub Stops : String → Option HookReturn → Type 0
Stops slot none = Unit
Stops slot (some v) = IsStopped (normalize_hook_return v slot)

-- The hook's `post_dispatch` stops the run whenever it is asked.
pub record StopsAfterTool {W : Type 0} (hook : Hook W) : Type 0 where
  pub method : W → ToolCall × ToolResult → ℕ → Ran W (ToolCall × ToolResult)
  pub has_method : hook.post_dispatch ≡ some method
  pub always :
      (w : W) (handed : ToolCall × ToolResult) (step : ℕ)
      → Stops "post_dispatch" (method w handed step).answer

abbrev pub HasToolStopper : {W : Type 0} → List (Hook W) → Type 0
HasToolStopper [] = ⊥
HasToolStopper (hook ∷ hooks) = StopsAfterTool hook ⊎ HasToolStopper hooks

-- a property of a result, if nothing raised
abbrev pub Unraised : {A : Type 0} → (A → Type 0) → Option A → Type 0
Unraised R none = Unit
Unraised R (some a) = R a

latest_keeps : (new old : Option String) → is_some old ≡ true → is_some (latest new old) ≡ true
latest_keeps none old h = h
latest_keeps (some s) old h = refl

latest_takes : (new old : Option String) → is_some new ≡ true → is_some (latest new old) ≡ true
latest_takes none old h = cc
latest_takes (some s) old h = refl

module _ {W : Type 0} (recorder : Recorder W) where
  abbrev HasStop : PostDispatch W → Type 0
  HasStop p = is_some p.stop_reason ≡ true

  after_post_keeps :
      (hooks : List (Hook W)) (name : String) (step : ℕ) (ran : Ran W (ToolCall × ToolResult))
      (p : PostDispatch W)
      → HasStop p
      → Unraised HasStop (after_post recorder hooks name step ran p)
  unfolding after_post absorb
  after_post_keeps hooks name step ran p h = elim (Option-cases ran.answer) [
    | inl e ↦ rw (e, after_post) tt
    | inr (v, e) ↦ elim (Normalized-cases (normalize_hook_return v "post_dispatch")) [
      | inl n ↦ rw (e, after_post, n) tt
      | inr (inl n) ↦ rw (e, after_post, n) h
      | inr (inr (d, n)) ↦ rw (e, after_post, n) (latest_keeps d.stop p.stop_reason h)
    ]
  ]

  post_event_answer_keeps :
      (hooks : List (Hook W)) (event : LifecycleEvent) (name : String) (step : ℕ) (v : HookReturn)
      (p : PostDispatch W)
      → HasStop p
      → Unraised HasStop (post_event_answer recorder hooks event name step v p)
  unfolding post_event_answer absorb
  post_event_answer_keeps hooks event name step (decided d) p h =
      elim (Normalized-cases (normalize_hook_return (decided d) (event_value event))) [
        | inl n ↦ rw (post_event_answer, n) tt
        | inr (inl n) ↦ rw (post_event_answer, n) h
        | inr (inr (e, n)) ↦ rw (post_event_answer, n) (latest_keeps e.stop p.stop_reason h)
      ]
  post_event_answer_keeps hooks event name step _ p h = h

  after_post_event_keeps :
      (hooks : List (Hook W)) (event : LifecycleEvent) (name : String) (step : ℕ)
      (ran : Ran W EventPayload) (p : PostDispatch W)
      → HasStop p
      → Unraised HasStop (after_post_event recorder hooks event name step ran p)
  unfolding after_post_event
  after_post_event_keeps hooks event name step ran p h = elim (Option-cases ran.answer) [
    | inl e ↦ rw (e, after_post_event) h
    | inr (v, e) ↦ rw (e, after_post_event) (post_event_answer_keeps hooks event name step v _ h)
  ]

  settle_hook_keeps :
      (hooks : List (Hook W)) (emit_lifecycle : Bool) (hook : Hook W) (step : ℕ)
      (p : PostDispatch W)
      → HasStop p
      → Unraised HasStop (settle_hook recorder hooks emit_lifecycle hook step p)
  unfolding settle_hook
  settle_hook_keeps hooks emit_lifecycle hook step p h = elim (Option-cases hook.post_dispatch) [
    | inr (f, e) ↦ rw e (after_post_keeps hooks hook.name step _ p h)
    | inl e ↦ elim (Bool-cases emit_lifecycle) [
      | inr b ↦ rw (e, settle_hook, b) h
      | inl b ↦ elim (Option-cases hook.on_event) [
        | inl o ↦ rw (e, settle_hook, b, o) h
        | inr (f, o) ↦
            rw (e, settle_hook, b, o) (after_post_event_keeps hooks _ hook.name step _ p h)
      ]
    ]
  ]

  settle_hook_stops :
      (hooks : List (Hook W)) (emit_lifecycle : Bool) (hook : Hook W) (step : ℕ)
      (p : PostDispatch W)
      → StopsAfterTool hook
      → Unraised HasStop (settle_hook recorder hooks emit_lifecycle hook step p)
  unfolding settle_hook after_post absorb is_stop
  settle_hook_stops hooks emit_lifecycle hook step p s =
      let ran = s.method p.world (p.tool_call, p.tool_result) step in
      let stops = s.always p.world (p.tool_call, p.tool_result) step in
      elim (Option-cases ran.answer) [
        | inl e ↦ rw (s.has_method, settle_hook, after_post, e) tt
        | inr (v, e) ↦
            let stopped : IsStopped (normalize_hook_return v "post_dispatch") = rw e at stops in
            elim (Normalized-cases (normalize_hook_return v "post_dispatch")) [
              | inl n ↦ rw (s.has_method, settle_hook, after_post, e, n) tt
              | inr (inl n) ↦ elim (rw n at stopped) [ ]
              | inr (inr (d, n)) ↦
                  rw (s.has_method, settle_hook, after_post, e, n)
                    (latest_takes d.stop p.stop_reason (rw n at stopped))
            ]
      ]

  run_post_dispatch_hooks_keeps :
      (hooks : List (Hook W)) (emit_lifecycle : Bool) (rest : List (Hook W)) (step : ℕ)
      (p : PostDispatch W)
      → HasStop p
      → Unraised HasStop (run_post_dispatch_hooks recorder hooks emit_lifecycle rest step p)
  unfolding run_post_dispatch_hooks
  run_post_dispatch_hooks_keeps hooks emit_lifecycle [] step p h = h
  run_post_dispatch_hooks_keeps hooks emit_lifecycle (hook ∷ rest) step p h =
      let kept = settle_hook_keeps hooks emit_lifecycle hook step p h in
      elim (Option-cases (settle_hook recorder hooks emit_lifecycle hook step p)) [
        | inl e ↦ rw (run_post_dispatch_hooks, e) tt
        | inr (q, e) ↦
            rw (run_post_dispatch_hooks, e)
              (run_post_dispatch_hooks_keeps hooks emit_lifecycle rest step q (rw e at kept))
      ]

-- Once a stop reason is set, or once a hook that always stops was asked, the outcome after the
-- hooks has a stop reason, whatever the other hooks answer, unless a hook raises. It holds with and
-- without lifecycle events.
pub run_post_dispatch_hooks-stops :
    {W : Type 0}
    → (recorder : Recorder W) (hooks : List (Hook W)) (emit_lifecycle : Bool) (rest : List (Hook W))
      (step : ℕ) (p : PostDispatch W)
    → (is_some p.stop_reason ≡ true) ⊎ HasToolStopper rest
    → Unraised
        (λ q. is_some q.stop_reason ≡ true)
        (run_post_dispatch_hooks recorder hooks emit_lifecycle rest step p)
unfolding run_post_dispatch_hooks
run_post_dispatch_hooks-stops recorder hooks emit_lifecycle rest step p (inl h) =
    run_post_dispatch_hooks_keeps recorder hooks emit_lifecycle rest step p h
run_post_dispatch_hooks-stops recorder hooks emit_lifecycle [] step p (inr h) = elim h [ ]
run_post_dispatch_hooks-stops recorder hooks emit_lifecycle (hook ∷ rest) step p (inr (inl s)) =
    let stopped = settle_hook_stops recorder hooks emit_lifecycle hook step p s in
    elim (Option-cases (settle_hook recorder hooks emit_lifecycle hook step p)) [
      | inl e ↦ rw (run_post_dispatch_hooks, e) tt
      | inr (q, e) ↦
          rw (run_post_dispatch_hooks, e)
            (run_post_dispatch_hooks_keeps recorder hooks emit_lifecycle rest step q
              (rw e at stopped))
    ]
run_post_dispatch_hooks-stops recorder hooks emit_lifecycle (hook ∷ rest) step p (inr (inr s)) =
    elim (Option-cases (settle_hook recorder hooks emit_lifecycle hook step p)) [
      | inl e ↦ rw (run_post_dispatch_hooks, e) tt
      | inr (q, e) ↦
          rw (run_post_dispatch_hooks, e)
            (run_post_dispatch_hooks-stops recorder hooks emit_lifecycle rest step q (inr s))
    ]

-- For the terminal dispatch, without lifecycle events, the hooks that have no `post_dispatch` have
-- no effect: the outcome is that of the other hooks in their order.
pub run_post_dispatch_hooks_terminal :
    {W : Type 0}
    → (recorder : Recorder W) (hooks rest : List (Hook W)) (step : ℕ) (p : PostDispatch W)
    → run_post_dispatch_hooks recorder hooks false rest step p
      ≡ run_post_dispatch_hooks recorder hooks false
          (keep_if (λ hook. is_some hook.post_dispatch) rest)
          step
          p
unfolding run_post_dispatch_hooks settle_hook
run_post_dispatch_hooks_terminal recorder hooks [] step p = refl
run_post_dispatch_hooks_terminal recorder hooks (hook ∷ rest) step p =
    elim (Option-cases hook.post_dispatch) [
      | inl e ↦
          rw (run_post_dispatch_hooks, settle_hook, keep_if, e)
            (run_post_dispatch_hooks_terminal recorder hooks rest step p)
      | inr (f, e) ↦
          rw (run_post_dispatch_hooks, keep_if, e, e)
            (elim (Option-cases (
              after_post recorder hooks hook.name step (f p.world (p.tool_call, p.tool_result) step)
                p)) [
                  | inl n ↦ rw n
                  | inr (q, n) ↦ rw n (run_post_dispatch_hooks_terminal recorder hooks rest step q)
                ])
    ]
