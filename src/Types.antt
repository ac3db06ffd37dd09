-- ===== src/Types.antt =====
-- The data that the loop, its hooks and its tools exchange: src/looplet/types.py and the event names
-- of src/looplet/events.py. `ident` is the identity of a mutable object, Python's `id`.
-- A duration is a whole number of milliseconds: the program only carries it along.
use looplet.Prelude.{Bool, List, Option, String, false, none, some, ℕ}
use looplet.Value.{Fields, Value}

pub data ErrorKind : Type 0 where
  permission_denied timeout validation execution parse context_overflow : ErrorKind
  rate_limit network cancelled : ErrorKind

pub record ToolError : Type 0 where
  pub kind : ErrorKind
  pub message : String
  pub retriable : Bool
  pub context : Fields
  pub recovery_hint : Option Value

pub record ToolCall : Type 0 where
  pub ident : ℕ
  pub tool : String
  pub args : Fields
  pub reasoning : String
  pub call_id : String
  pub metadata : Fields

pub record ToolResult : Type 0 where
  pub tool : String
  pub args_summary : String
  pub payload : Value
  pub error : Option String
  pub error_detail : Option ToolError
  pub duration_ms : ℕ
  pub result_key : Option String
  pub call_id : Option String
  pub warnings : List String
  pub metadata : Fields

-- `ToolResult.error_kind`
unfoldable pub error_kind : ToolResult → Option ErrorKind
error_kind r = elim r.error [
  | none ↦ none
  | some _ ↦ elim r.error_detail [ none ↦ some execution | some d ↦ some d.kind ]
]

-- `ToolResult.error_retriable`
unfoldable pub error_retriable : ToolResult → Bool
error_retriable r = elim r.error_detail [ none ↦ false | some d ↦ d.retriable ]

pub record Step : Type 0 where
  pub number : ℕ
  pub tool_call : ToolCall
  pub tool_result : ToolResult
  pub metadata : Fields

-- A `PolicyDecision`, the audit record that rides on a hook decision.
pub record PolicyRecord : Type 0 where
  pub decision : String
  pub tool : Option String
  pub policy_id : Option String
  pub policy_version : Option String
  pub reason : String
  pub subject_id : Option String
  pub target : Option String
  pub metadata : Fields

pub data LifecycleEvent : Type 0 where
  session_start pre_llm_call post_llm_response assistant_turn_decision : LifecycleEvent
  pre_tool_use tool_progress post_tool_use post_tool_failure : LifecycleEvent
  pre_compact post_compact hook_decision done_accepted : LifecycleEvent
  stop subagent_start subagent_stop : LifecycleEvent

-- `event.value`
unfoldable pub event_value : LifecycleEvent → String
event_value session_start = "session_start"
event_value pre_llm_call = "pre_llm_call"
event_value post_llm_response = "post_llm_response"
event_value assistant_turn_decision = "assistant_turn_decision"
event_value pre_tool_use = "pre_tool_use"
event_value tool_progress = "tool_progress"
event_value post_tool_use = "post_tool_use"
event_value post_tool_failure = "post_tool_failure"
event_value pre_compact = "pre_compact"
event_value post_compact = "post_compact"
event_value hook_decision = "hook_decision"
event_value done_accepted = "done_accepted"
event_value stop = "stop"
event_value subagent_start = "subagent_start"
event_value subagent_stop = "subagent_stop"
