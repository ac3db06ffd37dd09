-- ===== src/HookDecision/Wire.antt =====
-- The wire form of hook decisions: `HookDecision.to_wire` and `.from_wire`, with their helpers, of
-- src/looplet/hook_decision.py, and `PolicyDecision.to_dict` of src/looplet/types.py.
pub mod Values
pub mod Reading
pub mod PolicyTrip
pub mod RoundTrip
use looplet.Prelude.{List, Option, String, [], if◌then◌else◌, none, some, str_eq, ◌∷◌}
use looplet.Value.{Fields, Items, Value, cons, dict, end, field, int, list, nil, null, pos, text}
use looplet.Types.{PolicyRecord, ToolResult, stop}
use looplet.HookDecision.{HookDecision, rewrite_thread}

abbrev pub wire_text : Option String → Value
wire_text none = null
wire_text (some s) = text s

abbrev pub wire_dict : Option Fields → Value
wire_dict none = null
wire_dict (some fs) = dict fs

abbrev pub items_of : List String → Items
items_of [] = nil
items_of (s ∷ ss) = cons (text s) (items_of ss)

-- `_toolresult_to_wire`
unfoldable pub toolresult_to_wire : Option ToolResult → Value
toolresult_to_wire none = null
toolresult_to_wire (some r) = dict (
    field "tool" (text r.tool) (
      field "args_summary" (text r.args_summary) (
        field "data" r.payload (
          field "error" (wire_text r.error) (
            field "duration_ms" (int (pos r.duration_ms)) (
              field "result_key" (wire_text r.result_key) (
                field "call_id" (wire_text r.call_id) (
                  field "warnings" (list (items_of r.warnings))
                    (field "metadata" (dict r.metadata) end)))))))))

-- an entry that `to_dict` keeps: not `None` and not ""
abbrev pub entry : String → Option String → Fields → Fields
entry k none fs = fs
entry k (some s) fs = if str_eq s "" then fs else field k (text s) fs

-- `PolicyDecision.to_dict`
unfoldable pub policy_to_dict : PolicyRecord → Fields
policy_to_dict p = entry "decision" (some p.decision) (
    entry "tool" p.tool (
      entry "policy_id" p.policy_id (
        entry "policy_version" p.policy_version (
          entry "reason" (some p.reason) (
            entry "subject_id" p.subject_id
              (entry "target" p.target (field "metadata" (dict p.metadata) end)))))))

abbrev pub wire_policy : Option PolicyRecord → Value
wire_policy none = null
wire_policy (some p) = dict (policy_to_dict p)

-- `dict(self.rewrite_thread) if self.rewrite_thread else None`
abbrev pub wire_thread : Option Fields → Value
wire_thread none = null
wire_thread (some end) = null
wire_thread (some (field k v fs)) = dict (field k v fs)

-- `to_wire`
unfoldable pub to_wire : HookDecision → Fields
to_wire d = field "kind" (text "HookDecision") (
    field "block" (wire_text d.block) (
      field "stop" (wire_text d.stop) (
        field "updated_args" (wire_dict d.updated_args) (
          field "updated_result" (toolresult_to_wire d.updated_result) (
            field "permission" (wire_text d.permission) (
              field "additional_context" (wire_text d.additional_context) (
                field "rewrite_thread" (wire_thread d.rewrite_thread) (
                  field "policy_decision" (wire_policy d.policy_decision)
                    (field "metadata" (dict d.metadata) end)))))))))
