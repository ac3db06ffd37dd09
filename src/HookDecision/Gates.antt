-- ===== src/HookDecision/Gates.antt =====
-- Normalization at the tool gates, and the return values that it refuses.
use looplet.Prelude.{
  Bool, Bool-cases, Option, String, ap, arith, eq_iff, false, inl, inr, is_some, none, refl, some,
  str_eq, true, ◌↔◌, ◌≡◌, ◌⊎◌,
}
use looplet.HookDecision.{HookDecision, is_text}
use looplet.HookDecision.Normalize.{
  HookReturn, Normalized, anything_else, boolean, close_gate, closed, coerce, decided, is_gate,
  normal, normalize_hook_return, nothing, result, type_error, words,
}

-- The result of `f` on the decision that normalization hands on, if there is one.
abbrev pub Handed : (HookDecision → Type 0) → Normalized → Type 0
Handed P (normal none) = Unit
Handed P (normal (some d)) = P d
Handed P type_error = Unit

permission_is_deny : (p : Option String) → is_text p "deny" ≡ true → p ≡ some "deny"
permission_is_deny none h = cc
permission_is_deny (some s) h = ap some ((eq_iff s "deny").0 h)

deny_again :
    (d : HookDecision)
    → is_text d.permission "deny" ≡ true
    → d ≡ record d { permission = some "deny" }
deny_again d t = λ i. record d { permission = permission_is_deny d.permission t i }

pub close_gate_block :
    (d : HookDecision) (slot : String)
    → is_gate slot ≡ true
    → is_some d.block ≡ true
    → close_gate slot d ≡ record d { permission = some "deny" }
unfolding close_gate
close_gate_block d slot g b = elim (Bool-cases (is_text d.permission "deny")) [
  | inl t ↦ rw (g, b, t) (deny_again d t)
  | inr t ↦ rw (g, b, t)
]

close_gate_cases :
    (d : HookDecision) (slot : String)
    → (close_gate slot d ≡ d)
      ⊎ ((is_gate slot ≡ true)
          × (is_some d.block ≡ true)
          × (close_gate slot d ≡ record d { permission = some "deny" }))
unfolding close_gate
close_gate_cases d slot = elim (Bool-cases (is_gate slot)) [
  | inr g ↦ rw g (inl refl)
  | inl g ↦ elim (Bool-cases (is_some d.block)) [
    | inl b ↦ inr (g, b, unfold close_gate in close_gate_block d slot g b)
    | inr b ↦ rw (g, b) (inl refl)
  ]
]

close_gate_twice :
    (slot : String) (d : HookDecision) → close_gate slot (close_gate slot d) ≡ close_gate slot d
close_gate_twice slot d = elim (close_gate_cases d slot) [
  | inl e ↦ rw (e, e)
  | inr (g, b, e) ↦ rw e (close_gate_block (record d { permission = some "deny" }) slot g b)
]

closed_result :
    (slot : String) (n : Normalized) {d : HookDecision}
    → closed slot n ≡ normal (some d)
    → (d' : HookDecision) × (d ≡ close_gate slot d')
unfolding closed
closed_result slot type_error h = cc
closed_result slot (normal none) h = cc
closed_result slot (normal (some d')) h = (d', cc)

-- At every tool gate a hook's decision that carries a block is handed on as a denial, its permission
-- being "deny", with every other field as the hook gave it.
pub normalize_block-is_denial :
    (d : HookDecision) (slot reason : String)
    → is_gate slot ≡ true
    → d.block ≡ some reason
    → normalize_hook_return (decided d) slot ≡ normal (some (record d { permission = some "deny" }))
unfolding normalize_hook_return
normalize_block-is_denial d slot reason g b =
    ap (λ (e : HookDecision). normal (some e)) (close_gate_block d slot g (rw b))

-- Outside the tool gates a decision is handed on as it is; at a gate nothing but the permission can
-- change, and it changes only to a denial.
pub normalize_decided :
    (d : HookDecision) (slot : String)
    → (normalize_hook_return (decided d) slot ≡ normal (some d))
      ⊎ ((is_gate slot ≡ true)
          × (is_some d.block ≡ true)
          × (normalize_hook_return (decided d) slot
              ≡ normal (some (record d { permission = some "deny" }))))
unfolding normalize_hook_return
normalize_decided d slot = elim (close_gate_cases d slot) [
  | inl e ↦ inl (rw e)
  | inr (g, b, e) ↦ inr (g, b, rw e)
]

-- Normalizing what normalization handed on changes nothing.
pub normalize_idempotent :
    (v : HookReturn) (slot : String) {d : HookDecision}
    → normalize_hook_return v slot ≡ normal (some d)
    → normalize_hook_return (decided d) slot ≡ normal (some d)
unfolding normalize_hook_return
normalize_idempotent v slot h =
    let (d', e) = closed_result slot (coerce v slot) h in rw (e, close_gate_twice slot d')

-- A type error is raised for exactly two kinds of return value: one of no known type, and a boolean
-- outside `check_permission` and `should_stop`.
pub normalize-type_error_iff :
    (v : HookReturn) (slot : String)
    → (normalize_hook_return v slot ≡ type_error) ↔ (
        (v ≡ anything_else)
        ⊎ ((b : Bool) × (v ≡ boolean b)
            × (str_eq slot "check_permission" ≡ false)
            × (str_eq slot "should_stop" ≡ false)))
unfolding normalize_hook_return
normalize-type_error_iff nothing slot = ground arith
normalize-type_error_iff (decided d) slot = ground arith
normalize-type_error_iff (result r) slot = ground arith
normalize-type_error_iff (words s) slot = ground arith
normalize-type_error_iff (boolean b) slot =
    (λ h. inr (b, refl, ground arith, ground arith), ground arith)
normalize-type_error_iff anything_else slot = (λ h. inl refl, λ h. refl)
