-- ===== src/Registry/Schema.antt =====
-- The parameters of a tool as a JSON Schema: `is_json_schema` and `to_json_schema` of `ToolSpec` in
-- src/looplet/tools.py. Functions of Python's library on texts are parameters.
use looplet.Prelude.{
  Bool, List, String, [], false, if◌then◌else◌, is_some, not, or_else, some, starts_with, str_eq, ℕ,
  ◌&&◌, ◌∷◌,
}
use looplet.Prelude.Dict.{Dict, lookup}
use looplet.Value.{Fields, Items, Value, cons, dict, end, field, get, list, nil, text}
use looplet.Registry.{Parameters}
use looplet.Registry.Arguments.{set_field}

-- `str.strip`, `str.lower`, `s[n:]` and `str(value)`
pub record TextFunctions : Type 0 where
  pub strip : String → String
  pub lower : String → String
  pub drop_text : ℕ → String → String
  pub show : Value → String

-- `is_json_schema`
unfoldable pub is_json_schema_of : Fields → Bool
is_json_schema_of parameters = elim (get "type" parameters) [
  | some (text s) ↦ str_eq s "object" && is_some (get "properties" parameters)
  | _ ↦ false
]

-- `aliases`
unfoldable pub aliases : Dict String
aliases =
    ("str", "string")
    ∷ ("string", "string")
    ∷ ("int", "integer")
    ∷ ("integer", "integer")
    ∷ ("float", "number")
    ∷ ("number", "number")
    ∷ ("bool", "boolean")
    ∷ ("boolean", "boolean")
    ∷ ("list", "array")
    ∷ ("array", "array")
    ∷ ("dict", "object")
    ∷ ("object", "object")
    ∷ []

-- what a JSON Schema lists: the properties that are dicts, and the required names
abbrev pub property_dicts : Fields → Dict Fields
property_dicts end = []
property_dicts (field name (dict p) fs) = (name, p) ∷ property_dicts fs
property_dicts (field name v fs) = property_dicts fs

abbrev pub text_items : Items → List String
text_items nil = []
text_items (cons (text s) vs) = s ∷ text_items vs
text_items (cons v vs) = text_items vs

abbrev pub listed_properties : Fields → Dict Fields
listed_properties parameters = elim (get "properties" parameters) [
  | some (dict fs) ↦ property_dicts fs
  | _ ↦ []
]

abbrev pub listed_required : Fields → List String
listed_required parameters = elim (get "required" parameters) [
  | some (list vs) ↦ text_items vs
  | _ ↦ []
]

module _ (texts : TextFunctions) where
  -- the text of a type without its mark "(optional)", and whether it had one
  unfoldable pub unmarked : String → Bool × String
  unmarked declared =
      let type_text = texts.strip declared in
      let optional = starts_with (texts.lower type_text) "(optional)" in
      (optional, if optional then texts.strip (texts.drop_text 10 type_text) else type_text)

  -- one parameter: whether it is required, and its property
  unfoldable pub property_of : Value → Bool × Fields
  unfolding aliases
  property_of (dict descriptor) = elim (get "type" descriptor) [
    | some (text declared) ↦
        (let (optional, type_text) = unmarked declared in
          let alias = or_else (lookup (texts.lower type_text) aliases) type_text in
          (
            not (is_some (get "default" descriptor)) && not optional,
            set_field "type" (text alias) descriptor,
          ))
    | _ ↦ (not (is_some (get "default" descriptor)), descriptor)
  ]
  property_of descriptor =
      let (optional, type_text) = unmarked (texts.show descriptor) in
      (
        not optional,
        field "type" (text (or_else (lookup (texts.lower type_text) aliases) "string"))
            (field "description" (text (texts.show descriptor)) end),
      )

  unfoldable pub properties_of : Fields → Dict Fields
  properties_of end = []
  properties_of (field name descriptor fs) = (name, (property_of descriptor).1) ∷ properties_of fs

  unfoldable pub required_of : Fields → List String
  required_of end = []
  required_of (field name descriptor fs) =
      let rest = required_of fs in if (property_of descriptor).0 then name ∷ rest else rest

  -- `to_json_schema`, the two entries of it that dispatch reads
  unfoldable pub to_json_schema : Fields → Parameters
  to_json_schema parameters =
      if is_json_schema_of parameters
      then record {
        properties = listed_properties parameters;
        required = listed_required parameters;
      }
      else record { properties = properties_of parameters; required = required_of parameters }
