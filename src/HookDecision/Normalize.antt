-- ===== src/HookDecision/Normalize.antt =====
-- `normalize_hook_return` of src/looplet/hook_decision.py: legacy hook returns become decisions.
-- A `TypeError` is `none` of the result; the log line about ignored effects is left out.
use looplet.Prelude.{
  Bool, Option, String, [], false, if◌then◌else◌, inl, inr, is_some, none, not, refl, some, str_eq,
  str_mem, ◌&&◌, ◌∷◌, ◌≡◌, ◌⊎◌,
}
use looplet.Types.{ToolResult}
use looplet.HookDecision.{
  HookDecision, allow, deny, inject_context, is_text, no_effect, reject, stop_with,
}

-- what a hook method may hand back; `anything_else` is a value of a type that the loop refuses
pub data HookReturn : Type 0 where
  nothing : HookReturn
  decided : HookDecision → HookReturn
  result : ToolResult → HookReturn
  boolean : Bool → HookReturn
  words : String → HookReturn
  anything_else : HookReturn

pub data Normalized : Type 0 where
  normal : Option HookDecision → Normalized
  type_error : Normalized

-- `slot in {"pre_dispatch", "pre_tool_use", "check_permission"}`
unfoldable pub is_gate : String → Bool
is_gate slot = str_mem slot ("pre_dispatch" ∷ "pre_tool_use" ∷ "check_permission" ∷ [])

-- a block at a gate is a denial
unfoldable pub close_gate : String → HookDecision → HookDecision
close_gate slot d =
    if is_gate slot && (is_some d.block && not (is_text d.permission "deny"))
    then record d { permission = some "deny" }
    else d

coerce_boolean : Bool → String → Normalized
coerce_boolean b slot =
    if str_eq slot "check_permission"
    then normal (some (if b then allow none none else deny "permission denied" false none))
    else if str_eq slot "should_stop"
    then normal (if b then some (stop_with "hook_requested_stop") else none)
    else type_error

unfoldable pub coerce : HookReturn → String → Normalized
unfolding coerce_boolean
coerce nothing slot = normal none
coerce (decided d) slot = normal (some d)
coerce (result r) slot = normal (some (record no_effect { updated_result = some r }))
coerce (boolean b) slot = coerce_boolean b slot
coerce (words s) slot =
    normal (some (if str_eq slot "check_done" then reject s else inject_context s))
coerce anything_else slot = type_error

unfoldable pub closed : String → Normalized → Normalized
closed slot type_error = type_error
closed slot (normal none) = normal none
closed slot (normal (some d)) = normal (some (close_gate slot d))

unfoldable pub normalize_hook_return : HookReturn → String → Normalized
unfolding coerce closed
normalize_hook_return v slot = closed slot (coerce v slot)

pub Normalized-cases :
    (n : Normalized)
    → (n ≡ type_error) ⊎ (n ≡ normal none) ⊎ ((d : HookDecision) × (n ≡ normal (some d)))
Normalized-cases type_error = inl refl
Normalized-cases (normal none) = inr (inl refl)
Normalized-cases (normal (some d)) = inr (inr (d, refl))
