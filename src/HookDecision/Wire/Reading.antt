-- ===== src/HookDecision/Wire/Reading.antt =====
-- `HookDecision.from_wire` and `_toolresult_from_wire` of src/looplet/hook_decision.py.
use looplet.Prelude.{
  Bool, List, Option, String, [], false, if◌then◌else◌, is_some, none, not, or_else, some, str_eq,
  str_mem, true, ◌&&◌, ◌||◌, ◌∷◌,
}
use looplet.Value.{Fields, Value, dict, end, get, null, text, truthy}
use looplet.Types.{PolicyRecord, ToolResult}
use looplet.HookDecision.{
  HookDecision, allow, continue_with, deny, inject_context, no_effect, reject, rewrite_thread,
  stop_with,
}
use looplet.HookDecision as HD
use looplet.HookDecision.Wire.Values.{
  Read, and_then, got, keys_of, outside, read_dict, read_fields, read_list, read_natural,
  read_string, read_text, type_error, value_error,
}

-- `_toolresult_from_wire` on a dict
unfoldable pub toolresult_of : Fields → Read ToolResult
toolresult_of raw = and_then (read_string "" (get "tool" raw)) (λ tool.
    and_then (read_string "" (get "args_summary" raw)) (λ args_summary.
      and_then (read_text (get "error" raw)) (λ error.
        and_then (read_natural (get "duration_ms" raw)) (λ duration_ms.
          and_then (read_text (get "result_key" raw)) (λ result_key.
            and_then (read_text (get "call_id" raw)) (λ call_id.
              and_then (read_list (get "warnings" raw)) (λ warnings.
                and_then (read_fields (get "metadata" raw)) (λ metadata. got (record {
                  tool = tool;
                  args_summary = args_summary;
                  payload = or_else (get "data" raw) null;
                  error = error;
                  error_detail = none;
                  duration_ms = duration_ms;
                  result_key = result_key;
                  call_id = call_id;
                  warnings = warnings;
                  metadata = metadata;
                })))))))))

unfoldable pub toolresult_from_wire : Option Value → Read (Option ToolResult)
toolresult_from_wire none = got none
toolresult_from_wire (some null) = got none
toolresult_from_wire (some (dict raw)) = and_then (toolresult_of raw) (λ r. got (some r))
toolresult_from_wire (some _) = type_error

-- the parameters of `PolicyDecision`
abbrev pub policy_keys : List String
policy_keys =
    "decision" ∷ "tool" ∷ "policy_id" ∷ "policy_version" ∷ "reason" ∷ "subject_id" ∷ "target"
    ∷ "metadata" ∷ []

abbrev pub all_known : List String → Bool
all_known [] = true
all_known (k ∷ ks) = str_mem k policy_keys && all_known ks

abbrev pub read_metadata : Option Value → Read Fields
read_metadata none = got end
read_metadata (some (dict fs)) = got fs
read_metadata (some _) = outside

-- `PolicyDecision(**dict(raw))`: an unknown key or a missing decision is a `TypeError`
unfoldable pub policy_of : Fields → Read PolicyRecord
policy_of raw =
    if all_known (keys_of raw) && is_some (get "decision" raw)
    then and_then (read_string "" (get "decision" raw)) (λ decision.
      and_then (read_text (get "tool" raw)) (λ tool.
        and_then (read_text (get "policy_id" raw)) (λ policy_id.
          and_then (read_text (get "policy_version" raw)) (λ policy_version.
            and_then (read_string "" (get "reason" raw)) (λ reason.
              and_then (read_text (get "subject_id" raw)) (λ subject_id.
                and_then (read_text (get "target" raw)) (λ target.
                  and_then (read_metadata (get "metadata" raw)) (λ metadata. got (record {
                    decision = decision;
                    tool = tool;
                    policy_id = policy_id;
                    policy_version = policy_version;
                    reason = reason;
                    subject_id = subject_id;
                    target = target;
                    metadata = metadata;
                  })))))))))
    else type_error

abbrev pub read_policy : Option Value → Read (Option PolicyRecord)
read_policy (some (dict raw)) = and_then (policy_of raw) (λ p. got (some p))
read_policy _ = got none

-- `dict(v) if isinstance(v, dict) else None`
abbrev pub read_thread : Option Value → Option Fields
read_thread (some (dict fs)) = some fs
read_thread _ = none

-- the canonical form
unfoldable pub canonical : Fields → Read HookDecision
canonical raw = and_then (read_text (get "block" raw)) (λ block.
    and_then (read_text (get "stop" raw)) (λ stop.
      and_then (read_dict (get "updated_args" raw)) (λ updated_args.
        and_then (toolresult_from_wire (get "updated_result" raw)) (λ updated_result.
          and_then (read_text (get "permission" raw)) (λ permission.
            and_then (read_text (get "additional_context" raw)) (λ additional_context.
              and_then (read_policy (get "policy_decision" raw)) (λ policy_decision.
                and_then (read_fields (get "metadata" raw)) (λ metadata. got (record {
                  block = block;
                  stop = stop;
                  updated_args = updated_args;
                  updated_result = updated_result;
                  permission = permission;
                  additional_context = additional_context;
                  rewrite_thread = read_thread (get "rewrite_thread" raw);
                  policy_decision = policy_decision;
                  metadata = metadata;
                })))))))))

-- `raw.get(a) or raw.get(b)`
abbrev pub either : String → String → Fields → Option Value
either a b raw = elim (get a raw) [
  | none ↦ get b raw
  | some v ↦ if truthy v then some v else get b raw
]

abbrev pub is_set : String → Fields → Bool
is_set k raw = elim (get k raw) [ none ↦ false | some v ↦ truthy v ]

-- `.. or "default"`, where a text is expected
abbrev pub text_or : String → Option Value → Read String
text_or default none = got default
text_or default (some (text s)) = got (if str_eq s "" then default else s)
text_or default (some v) = if truthy v then outside else got default

-- `any(raw.get(k) for k in (..))`
abbrev pub has_payload : Fields → Bool
has_payload raw =
    is_set "text" raw
    || (is_set "block" raw || (is_set "reason" raw || (is_set "args" raw || is_set "result" raw)))

-- `Continue(ctx) if ctx else None`
abbrev pub continue_of : Option Value → Read (Option HookDecision)
continue_of none = got none
continue_of (some (text s)) = got (if str_eq s "" then none else some (continue_with (some s)))
continue_of (some v) = if truthy v then outside else got none

-- the forms named after a constructor
unfoldable pub by_kind : String → Fields → Read HookDecision
by_kind kind raw =
    if str_eq kind "Allow"
    then and_then (read_dict (either "args" "updated_args" raw)) (λ args. got (HD.allow args none))
    else if str_eq kind "Deny"
    then and_then (text_or "permission denied" (either "block" "reason" raw))
        (λ s. got (HD.deny s false none))
    else if str_eq kind "Block"
    then and_then (text_or "blocked" (either "reason" "block" raw)) (λ s. got (reject s))
    else if str_eq kind "Stop"
    then and_then (text_or "hook_requested_stop" (either "reason" "stop" raw))
        (λ s. got (stop_with s))
    else if str_eq kind "InjectContext"
    then and_then (text_or "" (either "text" "additional_context" raw))
        (λ s. got (inject_context s))
    else if str_eq kind "UpdateArgs"
    then and_then (read_dict (either "args" "updated_args" raw))
        (λ args. got (record no_effect { updated_args = args }))
    else if str_eq kind "UpdateResult"
    then and_then (toolresult_from_wire (either "result" "updated_result" raw))
        (λ r. got (record no_effect { updated_result = r }))
    else if str_eq kind "RewriteThread"
    then got (record no_effect {
      rewrite_thread = some (or_else (read_thread (either "rewrite_thread" "spec" raw)) end);
    })
    else value_error

-- `raw.get("kind")`; a kind that is neither absent nor a text is in no list
abbrev pub kind_of : Fields → Option String
kind_of raw = elim (get "kind" raw) [
  | none ↦ none
  | some null ↦ none
  | some (text s) ↦ some s
  | some _ ↦ some ""
]

unfoldable pub from_fields : Fields → Option String → Read (Option HookDecision)
from_fields raw none =
    if has_payload raw then value_error else continue_of (either "additional_context" "text" raw)
from_fields raw (some kind) =
    if str_eq kind "HookDecision"
    then and_then (canonical raw) (λ d. got (some d))
    else if str_eq kind "Continue" && not (has_payload raw)
    then continue_of (either "additional_context" "text" raw)
    else if str_eq kind "Allow" && not (has_payload raw)
    then got (some (HD.allow none none))
    else and_then (by_kind kind raw) (λ d. got (some d))

-- `from_wire`: `none` of the result is no opinion
unfoldable pub from_wire : Value → Read (Option HookDecision)
from_wire null = got none
from_wire (dict raw) = from_fields raw (kind_of raw)
from_wire _ = type_error
