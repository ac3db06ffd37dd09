-- ===== src/Parse.antt =====
-- The parsing of tool calls out of a model's answer: src/looplet/parse.py. A text that is scanned is the
-- list of its code points. `json.loads`, the regular expressions and `str` of values that are no texts
-- are parameters, and so is the id that a call gets if it has none.
mod Scan
pub mod Escape
pub mod Calls
mod Tests
unfoldable pub use Scan.*
use looplet.Prelude.{
  Bool, List, Option, String, [], false, if◌then◌else◌, none, or_else, some, str_eq, str_mem, suc,
  ℕ, ◌*◌, ◌∷◌,
}
use looplet.Value.{
  Fields, Items, Value, cons, dict, end, field, get, list, nil, text, truthy, dict, text, list,
  field, end, cons, nil, null,
}
use looplet.Types.{ToolCall}
use looplet.Registry.Arguments.{set_field}

-- `a or b` on what `d.get` gives
abbrev pub first_truthy : Option Value → Option Value → Option Value
first_truthy none b = b
first_truthy (some v) b = if truthy v then some v else b

abbrev pub get_or : String → Value → Fields → Value
get_or key default fields = or_else (get key fields) default

-- the arguments, by the type of what was sent for them
abbrev pub args_of : Option Value → Fields
args_of (some (text s)) = field "_raw_arg" (text s) end
args_of (some (dict fields)) = fields
args_of _ = end

-- the keys that name no argument
unfoldable pub meta_keys : List String
meta_keys =
    "tool" ∷ "name" ∷ "args" ∷ "input" ∷ "parameters" ∷ "reasoning" ∷ "theory" ∷ "thought"
    ∷ "thinking" ∷ "call_id" ∷ "id" ∷ []

unfoldable pub flat_args : Fields → Fields
unfolding meta_keys
flat_args end = end
flat_args (field k v fs) =
    let rest = flat_args fs in if str_mem k meta_keys then rest else field k v rest

abbrev pub or_flat : Fields → Fields → Fields
or_flat end d = flat_args d
or_flat (field k v fs) d = field k v fs

abbrev pub with_theory : Value → Fields → Fields
with_theory theory args = if truthy theory then set_field "__theory__" theory args else args

-- `str` of other values, `json.loads`, the removal of fences, the search for braces, the test for white
-- space only, and the identity and the id of the n-th new call
pub record Reader : Type 0 where
  pub render : Value → String
  pub loads : Text → Option Value
  pub unfence : Text → Text
  pub search_braces : Text → Option Text
  pub is_blank : Text → Bool
  pub new_ident : ℕ → ℕ
  pub new_call_id : ℕ → String

module _ (r : Reader) where
  abbrev pub str_of : Value → String
  str_of (text s) = s
  str_of v = r.render v

  abbrev pub id_of : ℕ → Option Value → String
  id_of n none = r.new_call_id n
  id_of n (some v) = if truthy v then str_of v else r.new_call_id n

  abbrev pub call_of : ℕ → Option Value → Fields → Option ToolCall
  call_of n none d = none
  call_of n (some tool) d =
      if truthy tool
      then some (record {
        ident = r.new_ident n;
        tool = str_of tool;
        args = with_theory (get_or "theory" (text "") d) (
            or_flat
              (args_of (
                first_truthy (get "args" d)
                  (first_truthy (get "input" d) (first_truthy (get "parameters" d) none))))
              d);
        reasoning =
            str_of (get_or "reasoning" (get_or "thinking" (get_or "thought" (text "") d) d) d);
        call_id = id_of n (first_truthy (get "call_id" d) (get "id" d));
        metadata = end;
      })
      else none

  -- `_dict_to_tool_call`
  unfoldable pub dict_to_tool_call : ℕ → Fields → Option ToolCall
  unfolding flat_args
  dict_to_tool_call n d = call_of n (first_truthy (get "tool" d) (get "name" d)) d

  abbrev pub dict_or_empty : Option Value → Fields
  dict_or_empty (some (dict fields)) = fields
  dict_or_empty _ = end

  -- one item of the multi-tool format
  abbrev pub item_call : ℕ → Value → Value → Fields → Option Value → Option ToolCall
  item_call n theory reasoning item none = none
  item_call n theory reasoning item (some tool) = some (record {
    ident = r.new_ident n;
    tool = str_of tool;
    args = with_theory theory (dict_or_empty (get "args" item));
    reasoning = str_of (get_or "reasoning" reasoning item);
    call_id = r.new_call_id n;
    metadata = end;
  })

  abbrev pub call_of_item : ℕ → Value → Value → Value → Option ToolCall
  call_of_item n theory reasoning (dict item) = item_call n theory reasoning item (get "tool" item)
  call_of_item n theory reasoning v = none

  abbrev pub cons_call : Option ToolCall → List ToolCall → List ToolCall
  cons_call none calls = calls
  cons_call (some call) calls = call ∷ calls

  unfoldable pub calls_of_items : ℕ → Value → Value → Items → List ToolCall
  calls_of_items n theory reasoning nil = []
  calls_of_items n theory reasoning (cons v vs) =
      cons_call (call_of_item n theory reasoning v) (calls_of_items (suc n) theory reasoning vs)

  abbrev pub calls_by : Fields → Option Value → List ToolCall
  calls_by d (some (list items)) =
      calls_of_items 0 (get_or "theory" (text "") d) (get_or "reasoning" (text "") d) items
  calls_by d _ = cons_call (dict_to_tool_call 0 d) []

  -- the object that a text holds
  abbrev pub as_dict : Option Value → Option Fields
  as_dict (some (dict fields)) = some fields
  as_dict _ = none

  abbrev pub or_try : Option Fields → Option Fields → Option Fields
  or_try none other = other
  or_try (some d) other = some d

  abbrev pub try_fixed : Text → Text → Option Fields
  try_fixed raw fixed = if same_text fixed raw then none else as_dict (r.loads fixed)

  -- `_try_parse_json`
  unfoldable pub try_parse_json : Text → Option Fields
  unfolding escape_literal_newlines
  try_parse_json raw = or_try (as_dict (r.loads raw)) (try_fixed raw (escape_literal_newlines raw))

  abbrev pub try_match : Option Text → Option Fields
  try_match none = none
  try_match (some found) = try_parse_json found

  unfoldable pub parse_object : Text → Option Fields
  unfolding try_parse_json
  parse_object raw = or_try (try_parse_json raw) (try_match (r.search_braces raw))

  abbrev pub calls_of : Option Fields → List ToolCall
  calls_of none = []
  calls_of (some d) = calls_by d (get "tools" d)

  abbrev pub call_of_object : Option Fields → Option ToolCall
  call_of_object none = none
  call_of_object (some d) = dict_to_tool_call 0 d

  -- `parse_tool_call`
  unfoldable pub parse_tool_call : Text → Option ToolCall
  unfolding parse_object
  parse_tool_call raw = call_of_object (parse_object (r.unfence raw))

  -- `parse_multi_tool_calls`, for an answer that was joined to a text; `none` is no answer
  abbrev pub parse_text : Text → List ToolCall
  parse_text raw = if r.is_blank raw then [] else calls_of (parse_object (r.unfence raw))

  unfoldable pub parse_multi_tool_calls : Option Text → List ToolCall
  unfolding parse_object calls_of_items
  parse_multi_tool_calls none = []
  parse_multi_tool_calls (some raw) = parse_text raw

  -- `parse_native_tool_use`
  abbrev pub is_tool_use : Option Value → Bool
  is_tool_use (some (text s)) = str_eq s "tool_use"
  is_tool_use _ = false

  abbrev pub native_call : ℕ → Fields → Value → Option ToolCall
  native_call n block name =
      if truthy name
      then some (record {
        ident = r.new_ident n;
        tool = str_of name;
        args = dict_or_empty (get "input" block);
        reasoning = "";
        call_id = id_of n (get "id" block);
        metadata = end;
      })
      else none

  abbrev pub call_of_block : ℕ → Value → Option ToolCall
  call_of_block n (dict block) =
      if is_tool_use (get "type" block)
      then native_call n block (get_or "name" (text "") block)
      else none
  call_of_block n v = none

  unfoldable pub native_calls : ℕ → Items → List ToolCall
  native_calls n nil = []
  native_calls n (cons v vs) = cons_call (call_of_block n v) (native_calls (suc n) vs)

  unfoldable pub parse_native_tool_use : Items → List ToolCall
  unfolding native_calls
  parse_native_tool_use blocks = native_calls 0 blocks
