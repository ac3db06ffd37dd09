-- ===== src/Registry/Tests.antt =====
-- One dispatch at concrete calls. The world counts the runs of the tool.
use looplet.Prelude.{
  [], false, if◌then◌else◌, none, refl, some, str_eq, true, ℕ, ◌*◌, ◌+◌, ◌∷◌, ◌≡◌, ◌⊎◌,
}
use looplet.Prelude.Dict.{Dict}
use looplet.Value.{Fields, dict, end, field, text}
use looplet.Types.{ToolCall}
use looplet.Registry.{Texts, ToolContext, ToolSpec, allows, returned}
use looplet.Registry.Arguments.{first_empty, is_empty, nullable, route_raw}
use looplet.Registry.Prepare.{
  check_arguments, live_context, prepare_call, prepare_dispatch, prepare_known, refuse_unavailable,
  with_context,
}
use looplet.Registry.Schema.{
  TextFunctions, aliases, is_json_schema_of, properties_of, property_of, required_of,
  to_json_schema, unmarked,
}
use looplet.Registry.Dispatch.{Host, after_execute, dispatch, retain_result, stored}
use looplet.Registry.Admission.{IsExecuted, IsRefused, dispatch-IsExecuted}
use looplet.Registry.Retry.{MayRetry, dispatch-MayRetry}

abbrev texts : Texts
texts = record {
  wording = λ r. "refused";
  tool_hint = λ hint. "see the tools";
  summarize_args = λ args. "";
  exception_text = λ e. e.message;
  timeout_text = λ s. s;
  strip = λ s. s;
  lower = λ s. s;
  contains = λ s part. false;
  sorted = λ ss. ss;
  close_matches = λ s ss. [];
}

abbrev fetch : ToolSpec ℕ
fetch = record {
  name = "fetch";
  parameters = field "url" (text "str") end;
  schema = record {
    properties = ("url", field "type" (text "string") end) ∷ [];
    required = "url" ∷ [];
  };
  is_json_schema = false;
  accepts_ctx = true;
  capabilities = "net" ∷ [];
  requires = [];
  result_is_view = false;
  render = end;
  prepare_args = none;
  execute = λ kwargs runs. (returned (text "page") ("slow" ∷ []), runs + 1);
}

abbrev text_functions : TextFunctions
text_functions = record {
  strip = λ s. s;
  lower = λ s. s;
  drop_text = λ n s. if str_eq s "(optional)int" then "int" else s;
  show = λ v. elim v [ text s ↦ s | _ ↦ "" ];
}

-- an optional parameter is declared, but not required
optional_parameter :
    to_json_schema text_functions (
      field "url"
        (dict (field "type" (text "str") end))
        (field "limit" (dict (field "type" (text "(optional)int") end)) end))
    ≡ record {
      properties =
          ("url", field "type" (text "string") end)
          ∷ ("limit", field "type" (text "integer") end)
          ∷ [];
      required = "url" ∷ [];
    }
unfolding to_json_schema is_json_schema_of properties_of required_of property_of unmarked aliases
optional_parameter = refl

abbrev tools : Dict (ToolSpec ℕ)
tools = ("fetch", fetch) ∷ []

abbrev host_of : Host ℕ
host_of = record { now = λ runs. runs * 5; store_result = λ call v runs. (stored none, runs) }

abbrev ctx : ToolContext
ctx = record {
  cancelled = some false;
  execution_policy = some (record { capabilities = "net" ∷ [] });
  resources = [];
  warnings = [];
}

abbrev call_of : Fields → ToolCall
call_of args = record {
  ident = 1;
  tool = "fetch";
  args = args;
  reasoning = "";
  call_id = "c1";
  metadata = end;
}

abbrev raw_call : ToolCall
raw_call = call_of (field "_raw_arg" (text "x") (field "__note" (text "y") end))

-- a raw argument reaches the one required parameter, and a private one is dropped
routed : (dispatch texts tools [] host_of raw_call (some ctx) 0).1 ≡ 1
unfolding dispatch prepare_call prepare_dispatch prepare_known check_arguments route_raw
    with_context live_context refuse_unavailable allows first_empty is_empty nullable after_execute
    retain_result
routed = refl

-- without a context the capability is missing, and nothing runs
unavailable_here : (dispatch texts tools [] host_of raw_call none 0).1 ≡ 0
unfolding dispatch prepare_call prepare_dispatch prepare_known check_arguments route_raw
    with_context live_context refuse_unavailable allows first_empty is_empty nullable after_execute
    retain_result
unavailable_here = refl

dispatch-IsExecuted_example :
    IsRefused texts tools [] host_of raw_call (some ctx) 0
    ⊎ IsExecuted texts tools [] host_of raw_call (some ctx) 0
dispatch-IsExecuted_example = dispatch-IsExecuted texts tools [] host_of raw_call (some ctx) 0

dispatch-MayRetry_example : MayRetry 0 (dispatch texts tools [] host_of (call_of end) (some ctx) 0)
dispatch-MayRetry_example = dispatch-MayRetry texts tools [] host_of (call_of end) (some ctx) 0
