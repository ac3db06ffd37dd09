-- ===== src/Limits/Admitted.antt =====
-- How many calls the guards let through, over any sequence of calls.
use looplet.Prelude.{
  All, Bool-cases, List, Option, String, [], ap, arith, drop, false, if◌then◌else◌, inl, inr,
  is_some, leb, length, min, none, not, refl, some, str_eq, suc, sym, true, zero, ℕ, ◌&&◌, ◌+◌, ◌-◌,
  ◌<◌, ◌∙◌, ◌∷◌, ◌≡◌, ◌≤◌,
}
use looplet.Types.{ToolCall, ToolResult}
use looplet.Limits.{ToolCallBudgetHook, Wording, reserve_call}

-- a guard asked about each call in turn: every call with its answer, and the guard afterwards
unfoldable pub ask_all :
    {H : Type 0}
    → (ToolCall → H → Option ToolResult × H)
    → List ToolCall
    → H
    → List (ToolCall × Option ToolResult) × H
ask_all ask [] h = ([], h)
ask_all ask (call ∷ calls) h =
    let (answer, h') = ask call h in
    let (answers, last) = ask_all ask calls h' in ((call, answer) ∷ answers, last)

-- the calls that were let through, those of one tool among them, and the calls of one tool
abbrev pub passed : List (ToolCall × Option ToolResult) → ℕ
passed [] = 0
passed ((call, none) ∷ answers) = passed answers + 1
passed ((call, some r) ∷ answers) = passed answers

abbrev pub passed_of : String → List (ToolCall × Option ToolResult) → ℕ
passed_of t [] = 0
passed_of t ((call, o) ∷ answers) =
    let rest = passed_of t answers in
    if str_eq call.tool t && not (is_some o) then rest + 1 else rest

abbrev pub calls_of : String → List ToolCall → ℕ
calls_of t [] = 0
calls_of t (call ∷ calls) =
    let rest = calls_of t calls in if str_eq call.tool t then rest + 1 else rest

abbrev pub IsRefused : ToolCall × Option ToolResult → Type 0
IsRefused a = is_some a.1 ≡ true

pub leb→le : (a b : ℕ) → leb a b ≡ true → a ≤ b
leb→le a b h = ground arith

pub leb→lt : (a b : ℕ) → leb a b ≡ false → b < a
leb→lt a b h = ground arith

-- What a call budget makes of a sequence of calls.
pub record IsWithin (h : ToolCallBudgetHook) (calls : List ToolCall)
    (r : List (ToolCall × Option ToolResult) × ToolCallBudgetHook) : Type 0 where
  pub count : passed r.0 ≡ min (h.max_calls - h.calls) (length calls)
  pub late : All IsRefused (drop (h.max_calls - h.calls) r.0)
  pub booked : r.1 ≡ record h { calls = h.calls + passed r.0 }

All-drop : (n : ℕ) → All IsRefused (drop n [])
All-drop zero = tt
All-drop (suc n) = tt

add_nothing : (a : ℕ) → a + 0 ≡ a
add_nothing a = omega arith

add_later : (a b : ℕ) → (a + 1) + b ≡ a + (b + 1)
add_later a b = omega arith

IsWithin-nil : (h : ToolCallBudgetHook) → IsWithin h [] ([], h)
IsWithin-nil h = record {
  count = omega arith;
  late = All-drop (h.max_calls - h.calls);
  booked = λ i. record h { calls = sym (add_nothing h.calls) i };
}

-- a refused call in front
IsWithin-refused :
    (h : ToolCallBudgetHook) (call : ToolCall) (result : ToolResult) (calls : List ToolCall)
    (r : List (ToolCall × Option ToolResult) × ToolCallBudgetHook)
    → h.max_calls ≤ h.calls
    → IsWithin h calls r
    → IsWithin h (call ∷ calls) ((call, some result) ∷ r.0, r.1)
IsWithin-refused h call result calls r e w =
    let spent : h.max_calls - h.calls ≡ 0 = omega arith in
    record {
      count = w.count ∙ omega (arith, spent);
      late = rw spent (refl, rw spent at w.late);
      booked = w.booked;
    }

-- a call that is let through in front
IsWithin-passed :
    (h : ToolCallBudgetHook) (call : ToolCall) (calls : List ToolCall)
    (r : List (ToolCall × Option ToolResult) × ToolCallBudgetHook)
    → h.calls < h.max_calls
    → IsWithin (record h { calls = h.calls + 1 }) calls r
    → IsWithin h (call ∷ calls) ((call, none) ∷ r.0, r.1)
IsWithin-passed h call calls r e w =
    let left : h.max_calls - h.calls ≡ suc (h.max_calls - (h.calls + 1)) = omega arith in
    record {
      count = ap (λ n. n + 1) w.count ∙ omega arith;
      late = rw left w.late;
      booked = w.booked ∙ (λ i. record h { calls = add_later h.calls (passed r.0) i });
    }

module _ (wording : Wording) where
  -- A budget lets exactly the first calls through, as many as were left of it, and books each of
  -- them; from then on it refuses every call.
  pub reserve_calls-IsWithin :
      (calls : List ToolCall) (h : ToolCallBudgetHook)
      → IsWithin h calls (ask_all (reserve_call wording) calls h)
  unfolding ask_all reserve_call
  reserve_calls-IsWithin [] h = IsWithin-nil h
  reserve_calls-IsWithin (call ∷ calls) h = elim (Bool-cases (leb h.max_calls h.calls)) [
    | inl e ↦
        rw (ask_all, reserve_call, e)
          (IsWithin-refused h call _ calls _ (leb→le _ _ e) (reserve_calls-IsWithin calls h))
    | inr e ↦
        rw (ask_all, reserve_call, e)
          (IsWithin-passed h call calls _ (leb→lt _ _ e)
            (reserve_calls-IsWithin calls (record h { calls = h.calls + 1 })))
  ]
