-- ===== src/Registry.antt =====
-- A tool, the context of a call and the checks of a call: `ToolSpec`, `ToolContext` and the refusals
-- of `_prepare_dispatch` in src/looplet/tools.py, and `ExecutionPolicy` of src/looplet/capabilities.py.
-- What a tool does, and the world it acts on, are the host's.
pub mod Arguments
pub mod Schema
pub mod Prepare
pub mod Routing
pub mod Dispatch
pub mod Admission
pub mod Retry
mod Tests
use looplet.Prelude.{
  Bool, List, Option, String, [], false, if◌then◌else◌, keep_if, none, not, some, str_eq, str_mem,
  true, ℕ, ◌&&◌, ◌∷◌,
}
use looplet.Prelude.Dict.{Dict}
use looplet.Value.{Fields, Items, Value, cons, dict, end, field, list, nil, null, text}
use looplet.Types.{ErrorKind, ToolError, permission_denied, validation, cancelled}

-- the part of an `ExecutionPolicy` that dispatch reads
pub record ExecutionPolicy : Type 0 where
  pub capabilities : List String

-- `allows`
unfoldable pub allows : ExecutionPolicy → List String → Bool
allows policy [] = true
allows policy (c ∷ required) = str_mem c policy.capabilities && allows policy required

-- the members of `set(required) - self.capabilities`, which `missing` sorts
unfoldable pub missing : ExecutionPolicy → List String → List String
missing policy required = keep_if (λ c. not (str_mem c policy.capabilities)) required

-- a shared resource, known by its identity, or the registry itself
pub data Resource : Type 0 where
  host : ℕ → Resource
  this_registry : Resource

-- the part of a `ToolContext` that dispatch reads or writes; `cancelled` is the state of its
-- token, if it has one
pub record ToolContext : Type 0 where
  pub cancelled : Option Bool
  pub execution_policy : Option ExecutionPolicy
  pub resources : Dict Resource
  pub warnings : List String

-- `ToolContext()`
abbrev pub new_context : ToolContext
new_context = record { cancelled = none; execution_policy = none; resources = []; warnings = [] }

-- a value of a call's keyword arguments
pub data Argument : Type 0 where
  given : Value → Argument
  context : Option ToolContext → Argument

-- the two entries of a JSON Schema that dispatch reads
pub record Parameters : Type 0 where
  pub properties : Dict Fields
  pub required : List String

-- an exception: its class, whose ancestors `instance_of` knows, and its text
pub record Exception : Type 0 where
  pub class_name : String
  pub message : String
  pub instance_of : String → Bool

-- what a run of the tool's code comes to, with the warnings it left on its context
pub data ToolOutcome : Type 0 where
  returned : Value → List String → ToolOutcome
  raised : Exception → List String → ToolOutcome

-- `execute` is the call of the host's function, waited for as `timeout_s` and the event loop ask.
-- `prepare_args` is there in a subclass that redefines it.
pub record ToolSpec (W : Type 0) : Type 0 where
  pub name : String
  pub parameters : Fields
  pub schema : Parameters
  pub is_json_schema : Bool
  pub accepts_ctx : Bool
  pub capabilities : List String
  pub requires : List String
  pub result_is_view : Bool
  pub render : Fields
  pub prepare_args : Option (Fields → Fields)
  pub execute : Dict Argument → W → ToolOutcome × W

-- why a call is not executed
pub data Refusal : Type 0 where
  unknown_tool : String → Option String → Refusal
  cancelled_before : Refusal
  unavailable : String → List String → Refusal
  empty_value : String → String → Fields → Refusal
  unexpected : String → List String → Option String → Fields → Refusal
  missing_arguments : String → List String → List String → Fields → Refusal

-- The texts of the program that no decision reads, and the text functions of Python's library:
-- `str.strip`, `str.lower`, `in`, `sorted` of a set of texts and `difflib.get_close_matches`.
pub record Texts : Type 0 where
  pub wording : Refusal → String
  pub tool_hint : Option String → String
  pub summarize_args : Fields → String
  pub exception_text : Exception → String
  pub timeout_text : String → String
  pub strip : String → String
  pub lower : String → String
  pub contains : String → String → Bool
  pub sorted : List String → List String
  pub close_matches : String → List String → List String

-- `suggest_similar`
unfoldable pub suggest_similar : Texts → String → List String → Option String
suggest_similar texts name [] = none
suggest_similar texts name (c ∷ choices) =
    if str_eq name ""
    then none
    else elim (texts.close_matches name (c ∷ choices)) [ [] ↦ none | m ∷ _ ↦ some m ]

-- a list of texts, and a text that may be missing, as values
abbrev pub texts_value : List String → Items
texts_value [] = nil
texts_value (s ∷ ss) = cons (text s) (texts_value ss)

abbrev pub optional_text : Option String → Value
optional_text none = null
optional_text (some s) = text s

abbrev pub refusal_kind : Refusal → ErrorKind
refusal_kind (unknown_tool name hint) = validation
refusal_kind cancelled_before = cancelled
refusal_kind (unavailable name missing') = permission_denied
refusal_kind (empty_value name param expected) = validation
refusal_kind (unexpected name unknown hint expected) = validation
refusal_kind (missing_arguments name missing' provided expected) = validation

-- only an empty value is worth the same call again
abbrev pub refusal_retriable : Refusal → Bool
refusal_retriable (empty_value name param expected) = true
refusal_retriable _ = false

abbrev pub refusal_context : Refusal → Fields
refusal_context (unavailable name missing') =
    field "missing_capabilities" (list (texts_value missing')) end
refusal_context _ = end

abbrev pub recovery_hint_of : Texts → Refusal → Option Value
recovery_hint_of texts (unknown_tool name hint) = some (text (texts.tool_hint hint))
recovery_hint_of texts cancelled_before = none
recovery_hint_of texts (unavailable name missing') = none
recovery_hint_of texts (empty_value name param expected) =
    some (dict (field "empty_param" (text param) (field "expected" (dict expected) end)))
recovery_hint_of texts (unexpected name unknown hint expected) = some (
    dict (
      field "unexpected" (list (texts_value unknown))
        (field "did_you_mean" (optional_text hint) (field "expected" (dict expected) end))))
recovery_hint_of texts (missing_arguments name missing' provided expected) = some (
    dict (
      field "missing" (list (texts_value missing'))
        (field "provided" (list (texts_value provided)) (field "expected" (dict expected) end))))

-- the `ToolError` of a refusal
unfoldable pub refusal_error : Texts → Refusal → ToolError
refusal_error texts r = record {
  kind = refusal_kind r;
  message = texts.wording r;
  retriable = refusal_retriable r;
  context = refusal_context r;
  recovery_hint = recovery_hint_of texts r;
}
