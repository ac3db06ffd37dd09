-- ===== src/Validation/Typed.antt =====
-- The registry that validates a call before it is prepared: `_typed_schema` and `_prepare_dispatch` of
-- `ValidatingToolRegistry` in src/looplet/validation.py.
use looplet.Prelude.{
  Bool, Bool-cases, List, Option, Option-cases, String, [], and_parts, ap, false, if◌then◌else◌,
  inl, inr, length, none, not, or_else, some, some-injective, str_mem, subst, sym, true, ◌++◌, ◌∙◌,
  ◌∷◌, ◌≡◌,
}
use looplet.Prelude.Dict.{Dict, lookup}
use looplet.Value.{Fields, Items, Value, cons, end, field, get, list, nil, text, tuple}
use looplet.Types.{ToolCall}
use looplet.Registry.{Argument, Parameters, Resource, Texts, ToolContext, ToolSpec}
use looplet.Registry.Arguments.{strip_private}
use looplet.Registry.Prepare.{Checked, passed, prepare_dispatch}
use looplet.Registry.Admission.{IsAdmissible, prepare_dispatch-IsAdmissible}
use looplet.Validation.{
  FieldSpec, OutputSchema, PyType, Violation, bool_type, dict_type, float_type, int_type, list_type,
  none_type, same_type, str_type, validate_args,
}
use looplet.Validation.Accepts.{accepted, every, validate_args-accepted}

-- `type_map.get(declared_type, ())`
abbrev pub json_types : Dict (List PyType)
json_types =
    ("string", str_type ∷ [])
    ∷ ("integer", int_type ∷ [])
    ∷ ("number", float_type ∷ int_type ∷ [])
    ∷ ("boolean", bool_type ∷ [])
    ∷ ("array", list_type ∷ [])
    ∷ ("object", dict_type ∷ [])
    ∷ ("null", none_type ∷ [])
    ∷ []

abbrev pub types_named : Value → List PyType
types_named (text name) = or_else (lookup name json_types) []
types_named _ = []

abbrev pub types_of_items : Items → List PyType
types_of_items nil = []
types_of_items (cons v vs) = types_named v ++ types_of_items vs

-- `dict.fromkeys(..)`: the first of equal types stays
abbrev pub without : PyType → List PyType → List PyType
without kind [] = []
without kind (k ∷ kinds) =
    let rest = without kind kinds in if same_type kind k then rest else k ∷ rest

abbrev pub distinct_types : List PyType → List PyType
distinct_types [] = []
distinct_types (k ∷ kinds) = k ∷ without k (distinct_types kinds)

-- the declared types of a parameter
unfoldable pub declared_types : Fields → List PyType
declared_types parameter = elim (get "type" parameter) [
  | some (list vs) ↦ distinct_types (types_of_items vs)
  | some v ↦ distinct_types (types_named v)
  | none ↦ []
]

-- `python_types or "any"`
abbrev pub types_or_any : List PyType → Option (List PyType)
types_or_any [] = none
types_or_any (k ∷ kinds) = some (k ∷ kinds)

-- `parameter.get("enum")`, a list of values
abbrev pub enum_of : Fields → Option Items
enum_of parameter = elim (get "enum" parameter) [
  | some (list vs) ↦ some vs
  | some (tuple vs) ↦ some vs
  | _ ↦ none
]

abbrev pub typed_fields : List String → Dict Fields → Dict FieldSpec
typed_fields required [] = []
typed_fields required ((name, parameter) ∷ properties) =
    (
      name,
      record {
        field_type = types_or_any (declared_types parameter);
        required = str_mem name required;
        allowed_values = enum_of parameter;
      },
    )
    ∷ typed_fields required properties

-- `_typed_schema`
unfoldable pub typed_schema : Parameters → OutputSchema
typed_schema p = record { fields = typed_fields p.required p.properties; strict = false }

-- an entry of `_schemas`: the tool's own parameters, or a schema
pub data SchemaSource : Type 0 where
  from_parameters : SchemaSource
  from_schema : OutputSchema → SchemaSource

-- the arguments as a dict of values
abbrev pub values_of : Fields → Dict Value
values_of end = []
values_of (field k v fs) = (k, v) ∷ values_of fs

-- what comes of a call: the violations, the `KeyError` of a schema without its tool, or the checks
-- that every registry makes
pub data Validated (A : Type 0) : Type 0 where
  invalid : List Violation → Validated A
  no_tool : Validated A
  valid_call : Checked A → Validated A

module _ (equal : Value → Value → Bool) (sorted : List String → List String) {W : Type 0}
    (texts : Texts) (tools : Dict (ToolSpec W)) (shared : Dict Resource) where
  abbrev pub schema_of : SchemaSource → ToolCall → Option OutputSchema
  schema_of (from_schema schema) call = some schema
  schema_of from_parameters call = elim (lookup call.tool tools) [
    | none ↦ none
    | some spec ↦ some (typed_schema spec.schema)
  ]

  unfoldable pub validate_call :
      OutputSchema → ToolCall → Option ToolContext → Validated (ToolSpec W × Dict Argument)
  validate_call schema call ctx =
      let result = validate_args equal sorted schema (values_of (strip_private call.args)) in
      if not result.valid
      then invalid result.errors
      else valid_call (prepare_dispatch texts tools shared call ctx)

  -- `_prepare_dispatch` of the validating registry
  unfoldable pub prepare_validated :
      Dict SchemaSource → ToolCall → Option ToolContext → Validated (ToolSpec W × Dict Argument)
  prepare_validated schemas call ctx = elim (lookup call.tool schemas) [
    | none ↦ valid_call (prepare_dispatch texts tools shared call ctx)
    | some source ↦ (elim (schema_of source call) [
      | none ↦ no_tool
      | some schema ↦ validate_call schema call ctx
    ])
  ]

  invalid_never :
      (errors : List Violation) (m : Checked (ToolSpec W × Dict Argument))
      → ◌≡◌ {A = Validated (ToolSpec W × Dict Argument)} (invalid errors) (valid_call m)
      → ⊥
  invalid_never errors m h = cc

  no_tool_never :
      (m : Checked (ToolSpec W × Dict Argument))
      → ◌≡◌ {A = Validated (ToolSpec W × Dict Argument)} no_tool (valid_call m)
      → ⊥
  no_tool_never m h = cc

  none-some : (source : SchemaSource) → none ≡ some source → ⊥
  none-some source h = cc

  unwrapped :
      (m k : Checked (ToolSpec W × Dict Argument))
      → ◌≡◌ {A = Validated (ToolSpec W × Dict Argument)} (valid_call m) (valid_call k)
      → m ≡ k
  unwrapped m k h = cc

  module _ (same_length : (xs : List String) → length (sorted xs) ≡ length xs) where
    validated_call :
        (schema : OutputSchema) (call : ToolCall) (ctx : Option ToolContext) (spec : ToolSpec W)
        (kwargs : Dict Argument)
        → validate_call schema call ctx ≡ valid_call (passed (spec, kwargs))
        → ((validate_args equal sorted schema (values_of (strip_private call.args))).valid ≡ true)
          × (prepare_dispatch texts tools shared call ctx ≡ passed (spec, kwargs))
    unfolding validate_call
    validated_call schema call ctx spec kwargs h =
        let result = validate_args equal sorted schema (values_of (strip_private call.args)) in
        elim (Bool-cases result.valid) [
          | inl e ↦ (e, unwrapped _ _ (rw (validate_call, e) at h))
          | inr e ↦
              elim (invalid_never result.errors (passed (spec, kwargs))
                (rw (validate_call, e) at h)) [ ]
        ]

    -- When a registry with schemas lets a call through to its tool, the keyword arguments are admissible
    -- for the tool, and if the tool has a schema, given or derived from its parameters, every field of it
    -- accepts what the call gives for it. Sorting keeps the number of names.
    pub prepare_validated-IsAdmissible :
        (schemas : Dict SchemaSource) (call : ToolCall) (ctx : Option ToolContext)
        (spec : ToolSpec W) (kwargs : Dict Argument)
        → prepare_validated schemas call ctx ≡ valid_call (passed (spec, kwargs))
        → (lookup call.tool tools ≡ some spec)
          × IsAdmissible ctx spec kwargs
          × ((source : SchemaSource) (schema : OutputSchema)
              → lookup call.tool schemas ≡ some source
              → schema_of source call ≡ some schema
              → every
                  (λ f.
                    accepted equal sorted same_length (values_of (strip_private call.args)) f.0 f.1)
                  schema.fields
                ≡ true)
    unfolding prepare_validated
    prepare_validated-IsAdmissible schemas call ctx spec kwargs h =
        elim (Option-cases (lookup call.tool schemas)) [
          | inl n ↦
              let prepared = unwrapped _ _ (rw (prepare_validated, n) at h) in
              let (found, admissible) =
                prepare_dispatch-IsAdmissible texts tools shared call ctx spec kwargs prepared in
              (found, admissible, λ source schema e. elim (none-some source (sym n ∙ e)) [ ])
          | inr (source, e) ↦ elim (Option-cases (schema_of source call)) [
            | inl n ↦
                elim (no_tool_never (passed (spec, kwargs)) (rw (prepare_validated, e, n) at h)) [ ]
            | inr (schema, f) ↦
                let (ok, prepared) =
                  validated_call schema call ctx spec kwargs (rw (prepare_validated, e, f) at h) in
                let (found, admissible) =
                  prepare_dispatch-IsAdmissible texts tools shared call ctx spec kwargs prepared in
                (
                  found,
                  admissible,
                  λ source' schema' e' f'.
                      let same = some-injective _ _ (sym e ∙ e') in
                      let same_schema =
                        some-injective _ _ (sym f ∙ ap (λ s. schema_of s call) same ∙ f') in
                      subst
                        (λ x.
                          every
                            (λ g.
                              accepted equal sorted same_length
                                (values_of (strip_private call.args)) g.0 g.1)
                            x.fields
                          ≡ true)
                        same_schema
                        (and_parts _ _ (
                          sym (
                            validate_args-accepted equal sorted same_length schema
                              (values_of (strip_private call.args)))
                          ∙ ok)).0,
                )
          ]
        ]
