-- ===== src/Validation.antt =====
-- The validation of arguments: src/looplet/validation.py. The equality of Python values and `sorted`
-- of a set of texts are parameters. An error is a value; its text is not modelled.
pub mod Accepts
pub mod Typed
mod Tests
use looplet.Prelude.{
  Bool, List, Option, String, [], any, false, if◌then◌else◌, is_some, keep_if, map, none, not, some,
  str_eq, true, ℕ, ◌&&◌, ◌++◌, ◌==◌, ◌||◌, ◌∷◌,
}
use looplet.Prelude.Dict.{Dict, keys, lookup}
use looplet.Value.{Items, Value, bool, cons, dict, int, list, nil, null, text, tuple}

-- the Python types that a field may have
pub data PyType : Type 0 where
  str_type int_type float_type bool_type list_type dict_type none_type : PyType

abbrev pub type_number : PyType → ℕ
type_number str_type = 0
type_number int_type = 1
type_number float_type = 2
type_number bool_type = 3
type_number list_type = 4
type_number dict_type = 5
type_number none_type = 6

abbrev pub same_type : PyType → PyType → Bool
same_type kind other = type_number kind == type_number other

-- `kind in kinds`
abbrev pub has_type : PyType → List PyType → Bool
has_type kind [] = false
has_type kind (k ∷ kinds) = if same_type kind k then true else has_type kind kinds

-- `isinstance(value, kind)`: a boolean is an integer too
unfoldable pub isinstance : Value → PyType → Bool
isinstance null kind = same_type kind none_type
isinstance (bool b) kind = same_type kind bool_type || same_type kind int_type
isinstance (int n) kind = same_type kind int_type
isinstance (text s) kind = same_type kind str_type
isinstance (list vs) kind = same_type kind list_type
isinstance (tuple vs) kind = false
isinstance (dict fs) kind = same_type kind dict_type

-- a `FieldSpec`; `none` for a field of any type
pub record FieldSpec : Type 0 where
  pub field_type : Option (List PyType)
  pub required : Bool
  pub allowed_values : Option Items

pub record OutputSchema : Type 0 where
  pub fields : Dict FieldSpec
  pub strict : Bool

-- `_TYPE_MAP`
unfoldable pub type_map : Dict (List PyType)
type_map =
    ("str", str_type ∷ [])
    ∷ ("int", int_type ∷ [])
    ∷ ("float", float_type ∷ int_type ∷ [])
    ∷ ("bool", bool_type ∷ [])
    ∷ ("list", list_type ∷ [])
    ∷ ("dict", dict_type ∷ [])
    ∷ []

-- the field type that a tag stands for; `none` is the `ValueError` of `__post_init__`
unfoldable pub field_type_of : String → Option (Option (List PyType))
unfolding type_map
field_type_of tag =
    if str_eq tag "any"
    then some none
    else elim (lookup tag type_map) [ none ↦ none | some kinds ↦ some (some kinds) ]

pub data Violation : Type 0 where
  missing_field : String → Violation
  wrong_type : String → Violation
  not_allowed : String → Violation
  unknown_field : String → Violation

pub record ValidationResult : Type 0 where
  pub valid : Bool
  pub errors : List Violation
  pub warnings : List Violation

-- `expected` as a tuple, and the test of the type: a boolean does not pass for an integer
unfoldable pub is_bool : Value → Bool
is_bool (bool b) = true
is_bool _ = false

unfoldable pub bad_type : List PyType → Value → Bool
bad_type kinds value =
    (is_bool value && (has_type int_type kinds && not (has_type bool_type kinds)))
    || not (any (isinstance value) kinds)

unfoldable pub type_errors : String → Option (List PyType) → Value → List Violation
type_errors name none value = []
type_errors name (some kinds) value = if bad_type kinds value then wrong_type name ∷ [] else []

abbrev pub same_flag : Bool → Bool → Bool
same_flag true b = b
same_flag false b = not b

module _ (equal : Value → Value → Bool) (sorted : List String → List String) where
  -- the test against the allowed values
  unfoldable pub is_allowed : Value → Items → Bool
  is_allowed value nil = false
  is_allowed value (cons allowed vs) =
      let later = is_allowed value vs in
      if same_flag (is_bool value) (is_bool allowed) && equal value allowed then true else later

  unfoldable pub allowed_errors : String → Option Items → Value → List Violation
  allowed_errors name none value = []
  allowed_errors name (some allowed) value =
      if is_allowed value allowed then [] else not_allowed name ∷ []

  -- one turn of the loop over the fields
  unfoldable pub field_errors : Dict Value → String → FieldSpec → List Violation
  field_errors args name spec = elim (lookup name args) [
    | none ↦ if spec.required then missing_field name ∷ [] else []
    | some value ↦
        type_errors name spec.field_type value ++ allowed_errors name spec.allowed_values value
  ]

  unfoldable pub fields_errors : Dict Value → Dict FieldSpec → List Violation
  fields_errors args [] = []
  fields_errors args ((name, spec) ∷ fields) =
      field_errors args name spec ++ fields_errors args fields

  abbrev pub unknown_fields : OutputSchema → Dict Value → List String
  unknown_fields schema args =
      sorted (keep_if (λ name. not (is_some (lookup name schema.fields))) (keys args))

  abbrev pub no_errors : List Violation → Bool
  no_errors [] = true
  no_errors (e ∷ errors) = false

  -- `validate_args`
  unfoldable pub validate_args : OutputSchema → Dict Value → ValidationResult
  validate_args schema args =
      let unknown = map unknown_field (unknown_fields schema args) in
      let found = fields_errors args schema.fields in
      let errors = if schema.strict then found ++ unknown else found in
      record {
        valid = no_errors errors;
        errors = errors;
        warnings = if schema.strict then [] else unknown;
      }
