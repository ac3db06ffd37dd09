-- ===== src/Loop/Guards.antt =====
-- What a hook may be at the gates: a guard, or one that keeps a call among the guarded ones.
use looplet.Prelude.{
  Bool, List, Option, Option-cases, String, [], false, inl, inr, none, or_else, refl, some, true, ℕ,
  ◌∷◌, ◌≡◌, ◌⊎◌,
}
use looplet.Value.{Fields, null}
use looplet.Types.{ToolCall, ToolResult, error_kind, error_retriable, permission_denied}
use looplet.HookDecision.{HookDecision, is_text}
use looplet.HookDecision.Normalize.{
  HookReturn, Normalized, Normalized-cases, decided, normal, normalize_hook_return, type_error,
}
use looplet.Loop.{EventPayload, Hook, Ran, Recorder}
use looplet.Loop.Intercept.{
  Pass, after_event, after_return, ask_check, ask_gate, denied_result, event_answer,
}

-- The structured error of a refused call: permission denied, not retriable, without data.
pub record IsDenial (r : ToolResult) : Type 0 where
  pub kind : error_kind r ≡ some permission_denied
  pub final : error_retriable r ≡ false
  pub no_payload : r.payload ≡ null

pub denied_result-IsDenial :
    (summarize : Fields → String) (call : ToolCall) (reason : String)
    → IsDenial (denied_result summarize call reason)
unfolding denied_result error_kind error_retriable
denied_result-IsDenial summarize call reason = record {
  kind = refl;
  final = refl;
  no_payload = refl;
}

-- If the pass says denied, the call's result is a denial.
abbrev pub IsSound : Bool → Option ToolResult → Type 0
IsSound false o = Unit
IsSound true none = ⊥
IsSound true (some r) = IsDenial r

-- what a method answered amounts to a refusal in this slot; a raise ends the run, and so no tool runs
abbrev pub IsRefused : Normalized → Type 0
IsRefused type_error = Unit
IsRefused (normal none) = ⊥
IsRefused (normal (some d)) = is_text d.permission "deny" ≡ true

abbrev pub IsRefusal : String → Option HookReturn → Type 0
IsRefusal slot none = Unit
IsRefusal slot (some v) = IsRefused (normalize_hook_return v slot)

module _ {W : Type 0} (P : ToolCall → Type 0) where
  -- The hook never takes a call out of `P` (such as: calls of one tool).
  pub record Keeps (hook : Hook W) : Type 0 where
    pub at_gate :
        (f : W → ToolCall → ℕ → Ran W ToolCall)
        → hook.pre_dispatch ≡ some f
        → (w : W) (call : ToolCall) (step : ℕ) → P call
        → P (f w call step).handed
    pub at_check :
        (f : W → ToolCall → Ran W ToolCall)
        → hook.check_permission ≡ some f
        → (w : W) (call : ToolCall) → P call
        → P (f w call).handed
    pub at_event :
        (f : W → EventPayload → Ran W EventPayload)
        → hook.on_event ≡ some f
        → (w : W) (payload : EventPayload) (call : ToolCall) → P call
        → payload.tool_call ≡ some call
        → P (or_else (f w payload).handed.tool_call call)

  -- The hook's permission check refuses every call in `P`.
  pub record Guards (hook : Hook W) : Type 0 where
    pub check : W → ToolCall → Ran W ToolCall
    pub has_check : hook.check_permission ≡ some check
    pub refuses_all :
        (w : W) (call : ToolCall) → P call → IsRefusal "check_permission" (check w call).answer

-- one of the hooks guards
abbrev pub HasGuard : {W : Type 0} → (ToolCall → Type 0) → List (Hook W) → Type 0
HasGuard P [] = ⊥
HasGuard P (hook ∷ hooks) = Guards P hook ⊎ HasGuard P hooks

-- a property of a step's result, if the step did not raise
abbrev pub AfterStep :
    {W : Type 0}
    → (Option HookDecision → Pass W → Type 0)
    → Option (Option HookDecision × Pass W)
    → Type 0
AfterStep R none = Unit
AfterStep R (some (o, q)) = R o q

abbrev pub After : {W : Type 0} → (Pass W → Type 0) → Option (Pass W) → Type 0
After R none = Unit
After R (some q) = R q

-- the call stays in `P`, and the flag is as it was
abbrev pub Stays :
    {W : Type 0} → (ToolCall → Type 0) → Pass W → Option HookDecision → Pass W → Type 0
Stays P p o q = P q.call × (q.denied ≡ p.denied)

module _ {W : Type 0} (recorder : Recorder W) (summarize : Fields → String)
    (P : ToolCall → Type 0) where
  after_return-Stays :
      (hooks : List (Hook W)) (slot name : String) (step : ℕ) (ran : Ran W ToolCall) (p : Pass W)
      → P ran.handed
      → AfterStep (Stays P p) (after_return recorder summarize hooks slot name step ran p)
  unfolding after_return
  after_return-Stays hooks slot name step ran p h = elim (Option-cases ran.answer) [
    | inl e ↦ rw (e, after_return) tt
    | inr (v, e) ↦ elim (Normalized-cases (normalize_hook_return v slot)) [
      | inl n ↦ rw (e, after_return, n) tt
      | inr (inl n) ↦ rw (e, after_return, n) (h, refl)
      | inr (inr (d, n)) ↦ rw (e, after_return, n) (h, refl)
    ]
  ]

  event_answer-Stays :
      (hooks : List (Hook W)) (name : String) (step : ℕ) (v : HookReturn) (p : Pass W)
      → P p.call
      → AfterStep (Stays P p) (event_answer recorder summarize hooks name step v p)
  unfolding event_answer
  event_answer-Stays hooks name step (decided d) p h =
      elim (Normalized-cases (normalize_hook_return (decided d) "pre_tool_use")) [
        | inl n ↦ rw (event_answer, n) tt
        | inr (inl n) ↦ rw (event_answer, n) (h, refl)
        | inr (inr (d', n)) ↦ rw (event_answer, n) (h, refl)
      ]
  event_answer-Stays hooks name step _ p h = (h, refl)

  after_event-Stays :
      (hooks : List (Hook W)) (name : String) (step : ℕ) (ran : Ran W EventPayload) (p : Pass W)
      → P (or_else ran.handed.tool_call p.call)
      → AfterStep (Stays P p) (after_event recorder summarize hooks name step ran p)
  unfolding after_event
  after_event-Stays hooks name step ran p h = elim (Option-cases ran.answer) [
    | inl e ↦ rw (e, after_event) tt
    | inr (v, e) ↦
        rw (e, after_event)
          (event_answer-Stays hooks name step v
            (record p { world = ran.world; call = or_else ran.handed.tool_call p.call }) h)
  ]

  pub ask_gate-Stays :
      (hooks : List (Hook W)) (hook : Hook W) (step : ℕ) (p : Pass W)
      → Keeps P hook
      → P p.call
      → AfterStep (Stays P p) (ask_gate recorder summarize hooks hook step p)
  unfolding ask_gate
  ask_gate-Stays hooks hook step p k h = elim (Option-cases hook.pre_dispatch) [
    | inr (f, e) ↦ rw e (
        after_return-Stays hooks "pre_dispatch" hook.name step (f p.world p.call step) p
          (k.at_gate f e p.world p.call step h))
    | inl e ↦ elim (Option-cases hook.on_event) [
      | inl n ↦ rw (e, n) (h, refl)
      | inr (f, n) ↦
          rw (e, ask_gate, n)
            (after_event-Stays hooks hook.name step _ p (k.at_event f n p.world _ p.call h refl))
    ]
  ]

  pub ask_check-Stays :
      (hooks : List (Hook W)) (hook : Hook W) (step : ℕ) (p : Pass W)
      → Keeps P hook
      → P p.call
      → AfterStep (Stays P p) (ask_check recorder summarize hooks hook step p)
  unfolding ask_check
  ask_check-Stays hooks hook step p k h = elim (Option-cases hook.check_permission) [
    | inl e ↦ rw e (h, refl)
    | inr (f, e) ↦ rw e (
        after_return-Stays hooks "check_permission" hook.name step (f p.world p.call) p
          (k.at_check f e p.world p.call h))
  ]
