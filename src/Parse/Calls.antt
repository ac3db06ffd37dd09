-- ===== src/Parse/Calls.antt =====
-- What the parser returns for answers that hold a list of calls.
use looplet.Prelude.{
  Bool-cases, List, String, [], ap, arith, false, inl, inr, map, none, refl, some, suc, sym, true,
  ℕ, ◌∷◌, ◌≡◌, ◌⊎◌,
}
use looplet.Value.{
  Fields, Items, Value, cons, dict, end, field, list, nil, text, dict, text, list, field, end, cons,
  nil,
}
use looplet.Types.{ToolCall}
use looplet.Parse.{
  Reader, Text, calls_of_items, escape_literal_newlines, parse_multi_tool_calls, parse_object,
  same_text, try_parse_json,
}

-- the object that a model is asked to send for several calls
abbrev pub item_of : ToolCall → Value
item_of c = dict (
    field "tool" (text c.tool)
      (field "args" (dict c.args) (field "reasoning" (text c.reasoning) end)))

abbrev pub calls_listed : List ToolCall → Items
calls_listed [] = nil
calls_listed (c ∷ cs) = cons (item_of c) (calls_listed cs)

abbrev pub answer_of : List ToolCall → Fields
answer_of calls = field "tools" (list (calls_listed calls)) end

-- what such an object says of a call
abbrev pub Said : Type 0
Said = String × Fields × String

abbrev pub said : ToolCall → Said
said c = (c.tool, c.args, c.reasoning)

same_text_eq : (a b : Text) → same_text a b ≡ true → a ≡ b
same_text_eq [] [] same = refl
same_text_eq [] (b ∷ bs) same = ground arith
same_text_eq (a ∷ as') [] same = ground arith
same_text_eq (a ∷ as') (b ∷ bs) same = ground (arith, same_text_eq as' bs)

module _ (r : Reader) where
  -- The text holds the object: as it is, or only with its control characters escaped.
  abbrev pub Holds : Fields → Text → Type 0
  Holds d raw =
      (r.loads raw ≡ some (dict d))
      ⊎ ((r.loads raw ≡ none) × (r.loads (escape_literal_newlines raw) ≡ some (dict d)))

  try_parse_json_of_Holds : (d : Fields) (raw : Text) → Holds d raw → try_parse_json r raw ≡ some d
  unfolding try_parse_json
  try_parse_json_of_Holds d raw (inl plain) = rw plain
  try_parse_json_of_Holds d raw (inr (refused, fixed)) =
      elim (Bool-cases (same_text (escape_literal_newlines raw) raw)) [
        | inl same ↦
            let equal : r.loads raw ≡ r.loads (escape_literal_newlines raw) =
              ap r.loads (sym (same_text_eq _ _ same)) in
            cc
        | inr other ↦ rw (refused, other, fixed)
      ]

  said-calls_of_items :
      (n : ℕ) (calls : List ToolCall)
      → map said (calls_of_items r n (text "") (text "") (calls_listed calls)) ≡ map said calls
  unfolding calls_of_items
  said-calls_of_items n [] = refl
  said-calls_of_items n (c ∷ cs) = ap (λ xs. said c ∷ xs) (said-calls_of_items (suc n) cs)

  -- For every list of calls and every answer that, without its fences, holds the object of those calls,
  -- either as it is or, where the decoder refuses it, with the control characters in its strings escaped:
  -- the parser returns as many calls, in that order, each with the tool, the arguments and the reasoning
  -- of the call that was sent.
  pub parse_multi_tool_calls-answer_of :
      (calls : List ToolCall) (raw : Text)
      → r.is_blank raw ≡ false
      → Holds (answer_of calls) (r.unfence raw)
      → map said (parse_multi_tool_calls r (some raw)) ≡ map said calls
  unfolding parse_multi_tool_calls parse_object
  parse_multi_tool_calls-answer_of calls raw not_blank holds = rw (
    not_blank,
    try_parse_json_of_Holds (answer_of calls) (r.unfence raw) holds,
    said-calls_of_items 0 calls,
  )
