-- ===== src/HookDecision/Wire/Values.antt =====
-- Reading one value of a wire form, as `HookDecision.from_wire` of src/looplet/hook_decision.py does.
-- Python stores a field's value whatever its type; where it is not of the field's type, and where a
-- text is split into characters or a list read as pairs, the result is `outside` the model.
use looplet.Prelude.{List, Option, String, [], if◌then◌else◌, none, some, str_eq, ℕ, ◌∷◌}
use looplet.Value.{
  Fields, Items, Value, cons, dict, end, field, int, list, nil, null, pos, text, truthy, tuple,
}

pub data Read (A : Type 0) : Type 0 where
  got : A → Read A
  type_error : Read A
  value_error : Read A
  outside : Read A

abbrev pub and_then : {A B : Type 0} → Read A → (A → Read B) → Read B
and_then (got a) f = f a
and_then type_error f = type_error
and_then value_error f = value_error
and_then outside f = outside

-- an optional text or dict, as it stands under a key
abbrev pub read_text : Option Value → Read (Option String)
read_text none = got none
read_text (some null) = got none
read_text (some (text s)) = got (some s)
read_text (some _) = outside

abbrev pub read_dict : Option Value → Read (Option Fields)
read_dict none = got none
read_dict (some null) = got none
read_dict (some (dict fs)) = got (some fs)
read_dict (some _) = outside

-- `raw.get(key, default)`
abbrev pub read_string : String → Option Value → Read String
read_string default none = got default
read_string default (some (text s)) = got s
read_string default (some _) = outside

abbrev pub read_natural : Option Value → Read ℕ
read_natural none = got 0
read_natural (some (int (pos n))) = got n
read_natural (some _) = outside

abbrev pub read_texts : Items → Read (List String)
read_texts nil = got []
read_texts (cons (text s) vs) = and_then (read_texts vs) (λ ss. got (s ∷ ss))
read_texts (cons _ vs) = outside

abbrev pub keys_of : Fields → List String
keys_of end = []
keys_of (field k v fs) = k ∷ keys_of fs

-- `list(v or [])`
abbrev pub read_list : Option Value → Read (List String)
read_list none = got []
read_list (some (list vs)) = read_texts vs
read_list (some (tuple vs)) = read_texts vs
read_list (some (dict fs)) = got (keys_of fs)
read_list (some (text s)) = if str_eq s "" then got [] else outside
read_list (some v) = if truthy v then type_error else got []

-- `dict(v or {})`
abbrev pub read_fields : Option Value → Read Fields
read_fields none = got end
read_fields (some (dict fs)) = got fs
read_fields (some (text s)) = if str_eq s "" then got end else value_error
read_fields (some (list vs)) = if truthy (list vs) then outside else got end
read_fields (some (tuple vs)) = if truthy (tuple vs) then outside else got end
read_fields (some v) = if truthy v then type_error else got end
