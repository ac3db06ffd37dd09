-- ===== src/Steering.antt =====
-- The hooks by which an operator takes part in a run: the steering queue of src/looplet/steering.py
-- and the approval stop of src/looplet/approval.py. `strip` is the one of Python's texts. The lock of
-- the queue makes each operation one step.
pub mod Delivery
mod Tests
use looplet.Prelude.{
  List, Option, String, [], if◌then◌else◌, none, or_else, some, str_eq, ℕ, ◌++◌, ◌∷◌,
}
use looplet.Value.{Fields, Value, cons, dict, get, list, nil, null, text, truthy}

pub data DeliveryMode : Type 0 where
  one_at_a_time all_at_once : DeliveryMode

pub record SteeringQueue : Type 0 where
  pub mode : DeliveryMode
  pub queue : List String

-- `steer`: a message of white space only is no message
unfoldable pub steer : (String → String) → String → SteeringQueue → SteeringQueue
steer strip message q =
    let s = strip message in if str_eq s "" then q else record q { queue = q.queue ++ s ∷ [] }

-- the messages that are due in a mode, and the queue without them
abbrev pub take_due :
    DeliveryMode → List String → SteeringQueue → Option (List String) × SteeringQueue
take_due mode [] q = (none, q)
take_due one_at_a_time (m ∷ ms) q = (some (m ∷ []), record q { queue = ms })
take_due all_at_once (m ∷ ms) q = (some (m ∷ ms), record q { queue = [] })

-- the part of `drain` under its lock: the messages that are delivered, and `none` if there are none;
-- the text that shows them is not made
unfoldable pub drain : SteeringQueue → Option (List String) × SteeringQueue
drain q = take_due q.mode q.queue q

-- `clear`
unfoldable pub clear : SteeringQueue → SteeringQueue
clear q = record q { queue = [] }

-- an `ApprovalRequest`: the data of a tool's result names the last two, as they are
pub record ApprovalRequest : Type 0 where
  pub step : ℕ
  pub tool : String
  pub description : Value
  pub options : Value

pub record ApprovalHook : Type 0 where
  pub pending : Option ApprovalRequest

-- what the approval hook answers: nothing, a stop, or the `AttributeError` of data that is no dict
pub data ApprovalAnswer : Type 0 where
  nothing : ApprovalAnswer
  stop_run : String → ApprovalAnswer
  attribute_error : ApprovalAnswer

abbrev pub get_or : String → Value → Fields → Value
get_or key default fields = or_else (get key fields) default

-- `post_dispatch`, for the tool of the call and the data of the result
unfoldable pub ask_approval : ℕ → String → Fields → ApprovalHook → ApprovalAnswer × ApprovalHook
ask_approval step_num tool fields hook =
    if truthy (get_or "needs_approval" null fields)
    then (
      stop_run "waiting_for_approval",
      record hook {
        pending = some (record {
          step = step_num;
          tool = tool;
          description = get_or "approval_description" (text "") fields;
          options =
              get_or "approval_options" (list (cons (text "approve") (cons (text "deny") nil)))
                fields;
        });
      },
    )
    else (nothing, hook)

unfoldable pub post_dispatch_approval :
    ℕ → String → Value → ApprovalHook → ApprovalAnswer × ApprovalHook
post_dispatch_approval step_num tool (dict fields) hook = ask_approval step_num tool fields hook
post_dispatch_approval step_num tool payload hook =
    if truthy payload then (attribute_error, hook) else (nothing, hook)
