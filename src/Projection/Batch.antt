-- ===== src/Projection/Batch.antt =====
-- `bound_result_batch` of src/looplet/result_projection.py: results that share one limit. A result
-- stands with whether it may still be made smaller, which is the set `eligible`; the list `sizes` is
-- the size of each result.
use looplet.Prelude.{
  Bool, List, Option, [], false, if◌then◌else◌, leb, length, ltb, map, max, none, some, suc, true,
  zero, ℕ, ◌+◌, ◌-◌, ◌/◌, ◌∷◌,
}
use looplet.Prelude.Places.{set, sum}
use looplet.Types.{ToolResult}
use looplet.Projection.{
  Projected, Renderer, context_overflow_error, project_tool_result, value_error, view,
}

pub data Bounded : Type 0 where
  bounded : List ToolResult → Bounded
  overflow : Bounded
  value_failure : Bounded
  out_of_fuel : Bounded

abbrev pub Slot : Type 0
Slot = ToolResult × Bool

-- what one round does with the largest result: a smaller one, no more tries for it, or an exception
pub data Shrunk : Type 0 where
  smaller : ToolResult → Shrunk
  given_up : Shrunk
  invalid : Shrunk

module _ (c : Renderer) where
  abbrev pub slot_size : Slot → ℕ
  slot_size s = c.size s.0

  abbrev pub total_size : List Slot → ℕ
  total_size slots = sum (map slot_size slots)

  -- the first of the largest eligible results, with its place
  abbrev pub pick : Bool → ToolResult → Option (ℕ × ToolResult) → Option (ℕ × ToolResult)
  pick false r none = none
  pick false r (some (i, q)) = some (suc i, q)
  pick true r none = some (0, r)
  pick true r (some (i, q)) = if leb (c.size q) (c.size r) then some (0, r) else some (suc i, q)

  unfoldable pub largest : List Slot → Option (ℕ × ToolResult)
  largest [] = none
  largest ((r, e) ∷ slots) = pick e r (largest slots)

  abbrev pub if_smaller : ToolResult → Projected → Shrunk
  if_smaller r (view q) = if leb (c.size r) (c.size q) then given_up else smaller q
  if_smaller r value_error = invalid
  if_smaller r context_overflow_error = given_up

  -- half of the size, and one less than the size if that is too short
  abbrev pub retry : ToolResult → Projected → Shrunk
  retry r (view q) = if_smaller r (view q)
  retry r value_error = invalid
  retry r context_overflow_error = if_smaller r (project_tool_result c r (max 1 (c.size r - 1)))

  unfoldable pub shrink : ToolResult → Shrunk
  shrink r = retry r (project_tool_result c r (max 1 (c.size r / 2)))

  unfoldable pub bound_round : List Slot → ℕ → ToolResult → Shrunk → Option (List Slot)
  bound_round slots i r (smaller q) = some (set slots i (q, true))
  bound_round slots i r given_up = some (set slots i (r, false))
  bound_round slots i r invalid = none

  abbrev pub then_bound : (List Slot → Bounded) → Option (List Slot) → Bounded
  then_bound k none = value_failure
  then_bound k (some slots) = k slots

  abbrev pub bound_largest : (List Slot → Bounded) → List Slot → Option (ℕ × ToolResult) → Bounded
  bound_largest k slots none = overflow
  bound_largest k slots (some (i, r)) = then_bound k (bound_round slots i r (shrink r))

  -- the `while` loop
  unfoldable pub bound_slots : ℕ → ℕ → List Slot → Bounded
  unfolding shrink bound_round largest
  bound_slots zero limit slots = out_of_fuel
  bound_slots (suc fuel) limit slots =
      let next = bound_largest (bound_slots fuel limit) slots (largest slots) in
      if ltb limit (total_size slots) then next else bounded (map (λ s. s.0) slots)

  abbrev pub slots_of : List ToolResult → List Slot
  slots_of results = map (λ r. (r, true)) results

  -- `bound_result_batch`, with fuel for each character and each result
  unfoldable pub bound_result_batch : List ToolResult → ℕ → Bounded
  unfolding bound_slots
  bound_result_batch results limit =
      bound_slots (total_size (slots_of results) + length results + 1) limit (slots_of results)
