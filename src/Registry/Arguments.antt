-- ===== src/Registry/Arguments.antt =====
-- The arguments of a call as `_prepare_dispatch` of src/looplet/tools.py treats them: what it drops,
-- what counts as empty, and where a raw argument goes.
use looplet.Prelude.{
  Bool, List, Option, String, [], false, if◌then◌else◌, is_some, none, not, or_else, some,
  starts_with, str_eq, true, ◌&&◌, ◌∷◌,
}
use looplet.Prelude.Dict.{Dict, insert, lookup, remove}
use looplet.Value.{Fields, Items, Value, cons, end, field, get, list, nil, null, text, tuple}
use looplet.Registry.{Argument, Texts, given}

-- a key that starts with `__` is dropped
abbrev pub strip_private : Fields → Fields
strip_private end = end
strip_private (field k v fs) =
    let rest = strip_private fs in if starts_with k "__" then rest else field k v rest

-- `dict(args)`, as keyword arguments
abbrev pub keywords : Fields → Dict Argument
keywords end = []
keywords (field k v fs) = (k, given v) ∷ keywords fs

-- `dict[k] = v`
abbrev pub set_field : String → Value → Fields → Fields
set_field k v end = field k v end
set_field k v (field j u fs) = if str_eq j k then field j v fs else field j u (set_field k v fs)

-- `None` is a legal value of the parameter: no type is declared for it and no list of values that
-- leaves it out, or it is of the type "null". The list of values is a list.
abbrev pub has_null : Items → Bool
has_null nil = false
has_null (cons null vs) = true
has_null (cons v vs) = has_null vs

abbrev pub names_null : Items → Bool
names_null nil = false
names_null (cons (text s) vs) = if str_eq s "null" then true else names_null vs
names_null (cons v vs) = names_null vs

abbrev pub enum_allows_null : Fields → Bool
enum_allows_null schema = elim (get "enum" schema) [
  | none ↦ true
  | some (list vs) ↦ has_null vs
  | some (tuple vs) ↦ has_null vs
  | some _ ↦ false
]

unfoldable pub nullable : Fields → Bool
nullable schema = elim (get "type" schema) [
  | none ↦ enum_allows_null schema
  | some null ↦ enum_allows_null schema
  | some (text type_name) ↦ str_eq type_name "null"
  | some (list vs) ↦ names_null vs
  | some _ ↦ false
]

-- the value of a required parameter that counts as no value
unfoldable pub is_empty : Texts → Bool → Fields → Argument → Bool
is_empty texts is_json_schema schema (given null) = not (nullable schema)
is_empty texts is_json_schema schema (given (text s)) =
    not is_json_schema && str_eq (texts.strip s) ""
is_empty texts is_json_schema schema _ = false

-- the first required parameter that is there and empty
unfoldable pub first_empty :
    Texts → Bool → Dict Fields → Dict Argument → List String → Option String
first_empty texts json properties sanitized [] = none
first_empty texts json properties sanitized (param ∷ required) =
    let later = first_empty texts json properties sanitized required in
    elim (lookup param sanitized) [
      | none ↦ later
      | some value ↦
          if is_empty texts json (or_else (lookup param properties) end) value
          then some param
          else later
    ]

-- `if "_raw_arg" in exec_kwargs and len(required) == 1: ..`, on the keyword arguments and the
-- sanitized arguments
unfoldable pub route_raw :
    List String → Dict Argument → Dict Argument → Dict Argument × Dict Argument
route_raw [] kwargs sanitized = (kwargs, sanitized)
route_raw (target ∷ []) kwargs sanitized = elim (lookup "_raw_arg" kwargs) [
  | none ↦ (kwargs, sanitized)
  | some raw ↦
      if is_some (lookup target (remove "_raw_arg" kwargs))
      then (remove "_raw_arg" kwargs, sanitized)
      else (
        insert target raw (remove "_raw_arg" kwargs),
        remove "_raw_arg" (insert target raw sanitized),
      )
]
route_raw (target ∷ next ∷ required) kwargs sanitized = (kwargs, sanitized)
