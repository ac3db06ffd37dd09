-- ===== src/Loop/Denial.antt =====
-- The guards among the hooks, and what the interception of a call makes of their refusal.
use looplet.Prelude.{
  All, Bool-cases, List, Option, Option-cases, String, [], ap, false, inl, inr, length, none, refl,
  some, suc, true, ℕ, ◌+◌, ◌∷◌, ◌≡◌,
}
use looplet.Value.{Fields}
use looplet.Types.{ToolCall, ToolResult}
use looplet.HookDecision.{HookDecision}
use looplet.HookDecision.Normalize.{Normalized-cases, normalize_hook_return}
use looplet.Loop.{Hook, Ran, Recorder}
use looplet.Loop.Intercept.{
  Interception, Pass, after_return, ask_check, check_then, intercept_call, intercept_tool_calls,
  reason_of, refuses, run_checks, run_gates, unless_denied,
}
use looplet.Loop.Guards.{
  After, AfterStep, Guards, HasGuard, IsDenial, IsRefusal, IsRefused, IsSound, Keeps, Stays,
  ask_check-Stays, denied_result-IsDenial,
}
use looplet.Loop.Gating.{run_gates-Settled}

-- a result that says that the permission was denied
abbrev Refused : {W : Type 0} → Pass W → Type 0
Refused q = (r : ToolResult) × (q.intercepted ≡ some r) × IsDenial r

-- a step that refuses
abbrev Refuses : {W : Type 0} → Option HookDecision → Pass W → Type 0
Refuses o q = refuses o ≡ true

module _ {W : Type 0} (recorder : Recorder W) (summarize : Fields → String)
    (P : ToolCall → Type 0) where
  IsSound-Refused :
      (q : Pass W) (o : Option ToolResult) → q.intercepted ≡ o → IsSound true o → Refused q
  IsSound-Refused q none e h = elim h [ ]
  IsSound-Refused q (some r) e h = (r, e, h)

  check_then-Refused :
      (next : Pass W → Option (Pass W)) (p : Pass W)
      → ((q : Pass W) → P q.call → After Refused (next q))
      → (r : Option (Option HookDecision × Pass W)) → AfterStep (Stays P p) r
      → After Refused (check_then recorder summarize next r)
  unfolding check_then
  check_then-Refused next p go none s = tt
  check_then-Refused next p go (some (o, q)) s = elim (Bool-cases (refuses o)) [
    | inl e ↦ rw (e, check_then) (_, refl, denied_result-IsDenial summarize q.call (reason_of o))
    | inr e ↦ rw (e, check_then) (go q s.0)
  ]

  check_then-stops :
      (next : Pass W → Option (Pass W)) (r : Option (Option HookDecision × Pass W))
      → AfterStep Refuses r
      → After Refused (check_then recorder summarize next r)
  unfolding check_then
  check_then-stops next none s = tt
  check_then-stops next (some (o, q)) s =
      rw (s, check_then) (_, refl, denied_result-IsDenial summarize q.call (reason_of o))

  after_return-Refuses :
      (hooks : List (Hook W)) (slot name : String) (step : ℕ) (ran : Ran W ToolCall) (p : Pass W)
      → IsRefusal slot ran.answer
      → AfterStep Refuses (after_return recorder summarize hooks slot name step ran p)
  unfolding after_return
  after_return-Refuses hooks slot name step ran p h = elim (Option-cases ran.answer) [
    | inl e ↦ rw (e, after_return) tt
    | inr (v, e) ↦
        let asked : IsRefused (normalize_hook_return v slot) = rw e at h in
        elim (Normalized-cases (normalize_hook_return v slot)) [
          | inl n ↦ rw (e, after_return, n) tt
          | inr (inl n) ↦ elim (rw n at asked) [ ]
          | inr (inr (d, n)) ↦ rw (e, after_return, n) (rw n at asked)
        ]
  ]

  ask_check-Refuses :
      (hooks : List (Hook W)) (hook : Hook W) (step : ℕ) (p : Pass W)
      → Guards P hook
      → P p.call
      → AfterStep Refuses (ask_check recorder summarize hooks hook step p)
  unfolding ask_check
  ask_check-Refuses hooks hook step p g h = rw g.has_check (
      after_return-Refuses hooks "check_permission" hook.name step (g.check p.world p.call) p
        (g.refuses_all p.world p.call h))

  run_checks-Refused :
      (hooks rest : List (Hook W)) (step : ℕ) (p : Pass W)
      → All (Keeps P) rest
      → HasGuard P rest
      → P p.call
      → After Refused (run_checks recorder summarize hooks rest step p)
  unfolding run_checks
  run_checks-Refused hooks [] step p k g h = elim g [ ]
  run_checks-Refused hooks (hook ∷ rest) step p k (inl g) h =
      check_then-stops (run_checks recorder summarize hooks rest step)
        (ask_check recorder summarize hooks hook step p) (ask_check-Refuses hooks hook step p g h)
  run_checks-Refused hooks (hook ∷ rest) step p k (inr g) h =
      check_then-Refused (run_checks recorder summarize hooks rest step) p
        (λ q hq. run_checks-Refused hooks rest step q k.1 g hq)
        (ask_check recorder summarize hooks hook step p)
        (ask_check-Stays recorder summarize P hooks hook step p k.0 h)

  unless_denied-Refused :
      (next : Pass W → Option (Pass W)) (q : Pass W)
      → (P q.call → After Refused (next q))
      → P q.call × IsSound q.denied q.intercepted
      → After Refused (unless_denied recorder summarize next q)
  unfolding unless_denied
  unless_denied-Refused next q go h = elim (Bool-cases q.denied) [
    | inl e ↦ rw (e, unless_denied) (IsSound-Refused q q.intercepted refl (rw e at h.1))
    | inr e ↦ rw (e, unless_denied) (go h.0)
  ]

-- Whatever the other hooks decide (a cached result, changed arguments, an allow), a call in `P` is
-- refused when one hook's permission check refuses every call in `P`: the interception raises, or
-- its result is a permission denial. The hooks keep the call in `P`, and `P` does not read the
-- arguments.
intercept_call-Refused :
    {W : Type 0}
    → (recorder : Recorder W) (summarize : Fields → String) (P : ToolCall → Type 0)
    → ((call : ToolCall) (args : Fields) → P call → P (record call { args = args }))
    → (hooks : List (Hook W)) (step : ℕ) (p : Pass W) → All (Keeps P) hooks
    → HasGuard P hooks
    → P p.call
    → p.denied ≡ false
    → After
        (λ q. (r : ToolResult) × (q.intercepted ≡ some r) × IsDenial r)
        (intercept_call recorder summarize hooks step p)
unfolding intercept_call
intercept_call-Refused recorder summarize P args_free hooks step p k g h n =
    let settled = run_gates-Settled recorder summarize P args_free hooks hooks step p k h n in
    elim (Option-cases (run_gates recorder summarize hooks hooks step p)) [
      | inl e ↦ rw (intercept_call, e) tt
      | inr (q, e) ↦
          rw (intercept_call, e)
            (unless_denied-Refused recorder summarize P
              (run_checks recorder summarize hooks hooks step) q
              (run_checks-Refused recorder summarize P hooks hooks step q k g) (rw e at settled))
    ]

-- a call as the hooks left it is refused
abbrev pub IsRefusedCall : ToolCall × Option ToolResult → Type 0
IsRefusedCall c = (r : ToolResult) × (c.1 ≡ some r) × IsDenial r

module _ {W : Type 0} (recorder : Recorder W) (summarize : Fields → String) where
  -- every call is there with its refusal, if nothing raised
  abbrev pub AllRefused : List ToolCall → Option (Interception recorder summarize) → Type 0
  AllRefused calls none = Unit
  AllRefused calls (some r) = All IsRefusedCall r.calls × (length r.calls ≡ length calls)

  -- No call in `P` is run when one hook's permission check refuses every call in `P`: whatever the
  -- other hooks decide, the interception of a list of such calls raises, or it gives every one of
  -- them a permission denial for its result. The hooks keep each call in `P`, and `P` does not read
  -- the arguments.
  pub intercept_tool_calls-AllRefused :
      (P : ToolCall → Type 0)
      → ((call : ToolCall) (args : Fields) → P call → P (record call { args = args }))
      → (hooks : List (Hook W)) (calls : List ToolCall) (step : ℕ) (w : W) (extra : List String)
      → All (Keeps P) hooks
      → HasGuard P hooks
      → All P calls
      → AllRefused calls (intercept_tool_calls recorder summarize hooks calls step w extra)
  unfolding intercept_tool_calls
  intercept_tool_calls-AllRefused P args_free hooks [] step w extra k g h = (tt, refl)
  intercept_tool_calls-AllRefused P args_free hooks (call ∷ calls) step w extra k g h =
      let p : Pass W = record {
        world = w;
        call = call;
        intercepted = none;
        extra_context = extra;
        denied = false;
      } in
      let one = intercept_call-Refused recorder summarize P args_free hooks step p k g h.0 refl in
      elim (Option-cases (intercept_call recorder summarize hooks step p)) [
        | inl e ↦ rw (intercept_tool_calls, e) tt
        | inr (q, e) ↦
            let rest =
              intercept_tool_calls-AllRefused P args_free hooks calls (step + 1) q.world
                q.extra_context k g h.1 in
            elim (Option-cases (
              intercept_tool_calls recorder summarize hooks calls (step + 1) q.world
                q.extra_context)) [
                  | inl n ↦ rw (intercept_tool_calls, e, n) tt
                  | inr (r, n) ↦
                      let later : AllRefused calls (some r) = rw n at rest in
                      rw (intercept_tool_calls, e, n) ((rw e at one, later.0), ap suc later.1)
                ]
      ]
