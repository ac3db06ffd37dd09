-- ===== src/Registry/Dispatch.antt =====
-- One dispatch of a tool call: `dispatch`, `_retain_result` and `_classify_exception` of
-- src/looplet/tools.py. The clock and the store of results are parameters.
use looplet.Prelude.{
  Bool, List, Option, String, [], any, false, if◌then◌else◌, none, some, true, ℕ, ◌++◌, ◌-◌, ◌||◌,
  ◌∷◌,
}
use looplet.Prelude.Dict.{Dict}
use looplet.Value.{Fields, Value, bool, dict, end, field, null, text}
use looplet.Types.{
  ErrorKind, ToolCall, ToolError, ToolResult, cancelled, context_overflow, execution, network,
  parse, permission_denied, rate_limit, timeout, validation, cancelled,
}
use looplet.Registry.{
  Exception, Refusal, Resource, Texts, ToolContext, ToolOutcome, ToolSpec, raised, refusal_error,
  returned, unknown_tool,
}
use looplet.Registry.Arguments.{set_field, strip_private}
use looplet.Registry.Prepare.{passed, prepare_call, prepare_dispatch, refused}

-- `ToolError(kind=.., message=.., retriable=..)`
abbrev pub plain_error : ErrorKind → String → Bool → ToolError
plain_error kind message retriable = record {
  kind = kind;
  message = message;
  retriable = retriable;
  context = end;
  recovery_hint = none;
}

-- the error of a `TimeoutError`: the tool may still run
abbrev pub timeout_error : String → ToolError
timeout_error message = record {
  kind = timeout;
  message = message;
  retriable = false;
  context = field "effect_unknown" (bool true) end;
  recovery_hint = some (
      dict
        (field "action" (text "reconcile_tool_effect") (field "effect_unknown" (bool true) end)));
}

-- `any(part in s for part in parts)`
abbrev pub contains_one : Texts → String → List String → Bool
contains_one texts s parts = any (λ part. texts.contains s part) parts

-- the part that reads names and texts of providers' exceptions
unfoldable pub classify_by_name : Texts → Exception → ToolError
classify_by_name texts e =
    let cls_name = texts.lower e.class_name in
    let words = texts.lower e.message in
    let msg = texts.exception_text e in
    if contains_one texts cls_name ("ratelimit" ∷ "rate_limit" ∷ []) || texts.contains words "429"
    then plain_error rate_limit msg true
    else if contains_one texts cls_name ("contextlengthexceeded" ∷ "context_length" ∷ [])
        || contains_one texts words
            ("context window" ∷ "too many tokens" ∷ "input is too long" ∷ [])
    then plain_error context_overflow msg false
    else if contains_one texts cls_name ("parseerror" ∷ "jsondecode" ∷ [])
    then plain_error parse msg false
    else plain_error execution msg false

-- `_classify_exception`
unfoldable pub classify_exception : Texts → Exception → ToolError
classify_exception texts e =
    let msg = texts.exception_text e in
    if e.instance_of "CancelledError"
    then plain_error cancelled msg false
    else if e.instance_of "ToolValidationError"
    then plain_error validation e.message false
    else if e.instance_of "TimeoutError"
    then timeout_error (texts.timeout_text e.message)
    else if any e.instance_of ("ValueError" ∷ "TypeError" ∷ "KeyError" ∷ [])
    then plain_error validation msg false
    else if e.instance_of "PermissionError"
    then plain_error permission_denied msg false
    else if e.instance_of "ConnectionError"
    then plain_error network msg true
    else classify_by_name texts e

-- what the store of results answers: a key if it keeps results, or an `OSError`
pub data Stored : Type 0 where
  stored : Option String → Stored
  store_failed : Fields → Stored

-- the clock, in milliseconds, and the store of results
pub record Host (W : Type 0) : Type 0 where
  pub now : W → ℕ
  pub store_result : ToolCall → Value → W → Stored × W

-- what `dispatch` comes to: a result, or an exception that is no `Exception` and goes up
pub data Dispatched : Type 0 where
  answered : ToolResult → Dispatched
  interrupted : Exception → Dispatched

-- `_retain_result`: the key of the stored result, and what is noted when it was not stored
unfoldable pub retain_result : Stored → Option String × Fields
retain_result (stored key) = (key, end)
retain_result (store_failed error) = (none, field "retention_error" (dict error) end)

abbrev pub retention_warning : Fields → List String
retention_warning end = []
retention_warning (field k v fs) =
    "Result retention unavailable; original output remains in run evidence." ∷ []

abbrev pub with_render : Fields → Fields → Fields
with_render end metadata = metadata
with_render (field k v fs) metadata = set_field "render" (dict (field k v fs)) metadata

-- `{**retention_metadata, "result_is_view": .., "render": ..}`
abbrev pub view_metadata : Bool → Fields → Fields → Fields
view_metadata is_view render retention =
    with_render render
      (if is_view then set_field "result_is_view" (bool true) retention else retention)

-- warnings are seen through the caller's context
abbrev pub seen_warnings : Option ToolContext → List String → List String
seen_warnings none warned = []
seen_warnings (some ctx) warned = warned

module _ {W : Type 0} (texts : Texts) (tools : Dict (ToolSpec W)) (shared : Dict Resource) where
  -- the result of a call that fails
  abbrev pub failure : ToolCall → ToolError → ℕ → List String → ToolResult
  failure call error duration warnings = record {
    tool = call.tool;
    args_summary = texts.summarize_args call.args;
    payload = null;
    error = some error.message;
    error_detail = some error;
    duration_ms = duration;
    result_key = none;
    call_id = some call.call_id;
    warnings = warnings;
    metadata = end;
  }

  -- the result of a call that is refused; for an unknown tool, private arguments are not shown
  abbrev pub shown_args : Refusal → Fields → Fields
  shown_args (unknown_tool name hint) args = strip_private args
  shown_args r args = args

  abbrev pub refusal_result : ToolCall → Refusal → ToolResult
  refusal_result call r = record (failure call (refusal_error texts r) 0 []) {
    args_summary = texts.summarize_args (shown_args r call.args);
  }

  abbrev pub success : ToolCall → ToolSpec W → Value → Stored → ℕ → List String → ToolResult
  success call spec value kept duration warnings =
      let (key, retention) = retain_result kept in
      record {
        tool = call.tool;
        args_summary = texts.summarize_args call.args;
        payload = value;
        error = none;
        error_detail = none;
        duration_ms = duration;
        result_key = key;
        call_id = some call.call_id;
        warnings = warnings ++ retention_warning retention;
        metadata = view_metadata spec.result_is_view spec.render retention;
      }

  -- what follows the run of the tool's code, which started at `t0`
  unfoldable pub after_execute :
      Host W → ToolCall → ToolSpec W → Option ToolContext → ℕ → ToolOutcome × W → Dispatched × W
  after_execute host_of call spec ctx t0 (returned value warned, w) =
      let (kept, w') = host_of.store_result call value w in
      (answered (success call spec value kept (host_of.now w - t0) (seen_warnings ctx warned)), w')
  after_execute host_of call spec ctx t0 (raised e warned, w) =
      if e.instance_of "Exception"
      then (
        answered (
            failure call (classify_exception texts e) (host_of.now w - t0)
              (seen_warnings ctx warned)),
        w,
      )
      else (interrupted e, w)

  -- `dispatch`
  unfoldable pub dispatch : Host W → ToolCall → Option ToolContext → W → Dispatched × W
  dispatch host_of call ctx w =
      let prepared = prepare_call texts tools shared call in
      elim (prepare_dispatch texts tools shared prepared ctx) [
        | refused r ↦ (answered (refusal_result prepared r), w)
        | passed (spec, kwargs) ↦
            after_execute host_of prepared spec ctx (host_of.now w) (spec.execute kwargs w)
      ]
