-- ===== src/Validation/Tests.antt =====
-- The validation at concrete schemas.
use looplet.Prelude.{
  List, String, [], false, is_some, none, not, refl, some, true, ℕ, ◌&&◌, ◌+◌, ◌||◌, ◌∷◌, ◌≡◌,
}
use looplet.Prelude.Dict.{Dict, keys, lookup}
use looplet.Value.{bool, end, field, int, null, pos, text}
use looplet.Value.Same.{same_value}
use looplet.Types.{ToolCall}
use looplet.Registry.{Argument, Texts, ToolSpec, allows, given, returned}
use looplet.Registry.Arguments.{first_empty, is_empty, nullable, route_raw, strip_private}
use looplet.Registry.Prepare.{
  check_arguments, passed, prepare_dispatch, prepare_known, refuse_unavailable, with_context,
}
use looplet.Registry.Admission.{IsAdmissible}
use looplet.Validation.{
  OutputSchema, allowed_errors, bad_type, field_errors, field_type_of, fields_errors, float_type,
  int_type, is_bool, isinstance, type_errors, type_map, unknown_field, validate_args, wrong_type,
}
use looplet.Validation.Accepts.{accepted, every, validate_args-accepted}
use looplet.Validation.Typed.{
  SchemaSource, declared_types, from_parameters, prepare_validated, prepare_validated-IsAdmissible,
  schema_of, typed_schema, valid_call, validate_call, values_of,
}

abbrev schema : OutputSchema
schema = record {
  fields =
      (
        "count",
        record { field_type = some (int_type ∷ []); required = true; allowed_values = none },
      )
      ∷ [];
  strict = true;
}

abbrev keep : List String → List String
keep ss = ss

-- a boolean is no integer, and an unknown field is an error of a strict schema
strict_errors :
    (validate_args same_value keep schema (("count", bool true) ∷ ("x", null) ∷ [])).errors
    ≡ wrong_type "count" ∷ unknown_field "x" ∷ []
unfolding validate_args fields_errors field_errors type_errors bad_type is_bool isinstance
    allowed_errors
strict_errors = refl

validate_args-accepted_example :
    (validate_args same_value keep schema (("count", bool true) ∷ [])).valid
    ≡ every
        (λ f. accepted same_value keep (λ xs. refl) (("count", bool true) ∷ []) f.0 f.1)
        schema.fields
      && (not schema.strict
          || every (λ name. is_some (lookup name schema.fields)) (keys (("count", bool true) ∷ [])))
validate_args-accepted_example =
    validate_args-accepted same_value keep (λ xs. refl) schema (("count", bool true) ∷ [])

number_type : field_type_of "float" ≡ some (some (float_type ∷ int_type ∷ []))
unfolding field_type_of type_map
number_type = refl

unsupported_type : field_type_of "date" ≡ none
unfolding field_type_of type_map
unsupported_type = refl

abbrev texts : Texts
texts = record {
  wording = λ r. "refused";
  tool_hint = λ hint. "see the tools";
  summarize_args = λ args. "";
  exception_text = λ e. e.message;
  timeout_text = λ s. s;
  strip = λ s. s;
  lower = λ s. s;
  contains = λ s part. false;
  sorted = keep;
  close_matches = λ s ss. [];
}

abbrev repeat : ToolSpec ℕ
repeat = record {
  name = "repeat";
  parameters = field "count" (text "int") end;
  schema = record {
    properties = ("count", field "type" (text "integer") end) ∷ [];
    required = "count" ∷ [];
  };
  is_json_schema = false;
  accepts_ctx = false;
  capabilities = [];
  requires = [];
  result_is_view = false;
  render = end;
  prepare_args = none;
  execute = λ kwargs runs. (returned null [], runs + 1);
}

abbrev tools : Dict (ToolSpec ℕ)
tools = ("repeat", repeat) ∷ []

abbrev call : ToolCall
call = record {
  ident = 1;
  tool = "repeat";
  args = field "count" (int (pos 3)) end;
  reasoning = "";
  call_id = "c1";
  metadata = end;
}

abbrev kwargs : Dict Argument
kwargs = ("count", given (int (pos 3))) ∷ []

abbrev schemas : Dict SchemaSource
schemas = ("repeat", from_parameters) ∷ []

call_passes :
    prepare_validated same_value keep texts tools [] schemas call none
    ≡ valid_call (passed (repeat, kwargs))
unfolding prepare_validated validate_call validate_args fields_errors field_errors type_errors
    bad_type is_bool isinstance allowed_errors typed_schema declared_types prepare_dispatch
    prepare_known check_arguments route_raw with_context refuse_unavailable allows first_empty
    is_empty nullable
call_passes = refl

prepare_validated-IsAdmissible_example :
    (lookup "repeat" tools ≡ some repeat)
    × IsAdmissible none repeat kwargs
    × ((source : SchemaSource) (s : OutputSchema)
        → lookup "repeat" schemas ≡ some source
        → schema_of same_value keep texts tools [] source call ≡ some s
        → every
            (λ f.
              accepted same_value keep (λ xs. refl) (values_of (strip_private call.args)) f.0 f.1)
            s.fields
          ≡ true)
prepare_validated-IsAdmissible_example =
    prepare_validated-IsAdmissible same_value keep texts tools [] (λ xs. refl) schemas call none
      repeat kwargs call_passes
