-- ===== src/Permission/Hook.antt =====
-- `PermissionHook` of src/looplet/permissions.py: the engine as a loop hook, with the one approval
-- that it remembers between the two gates of a call.
use Prim.Native.String.{◌++◌ as str_append}
use looplet.Prelude.{Bool, Option, String, false, if◌then◌else◌, none, some, str_eq, true}
use looplet.Value.{Value, cons, dict, end, int, nil, pos, text, tuple}
use looplet.Value.Same.{same_value}
use looplet.Types.{LifecycleEvent, PolicyRecord, ToolCall, pre_tool_use}
use looplet.HookDecision as HD
use looplet.HookDecision.{HookDecision}
use looplet.Permission.{
  Engine, Evaluation, Host, Outcome, Rule, allow, ask, deny, evaluate, policy_snapshot,
  record_denial, verdict_value, deny, allow, ask,
}

-- `approved` is the tuple of `_approved`
pub record PermissionHook : Type 0 where
  pub engine : Engine
  pub approved : Option Value

-- `(id(call), call.call_id, call.tool, call.args, engine._policy_snapshot())`
unfoldable pub approval_of : ToolCall → Engine → Value
approval_of call e = tuple (
    cons (int (pos call.ident)) (
      cons (text call.call_id)
        (cons (text call.tool) (cons (dict call.args) (cons (policy_snapshot e) nil)))))

abbrev pub is_pre_tool_use : LifecycleEvent → Bool
is_pre_tool_use pre_tool_use = true
is_pre_tool_use _ = false

audit_record : ToolCall → Outcome → PolicyRecord
audit_record call o = record {
  decision = verdict_value o.decision;
  tool = some call.tool;
  policy_id = some (elim o.rule [ none ↦ "default" | some r ↦ r.tool ]);
  policy_version = none;
  reason = o.reason;
  subject_id = none;
  target = none;
  metadata = end;
}

unfoldable pub denial_text : ToolCall → Outcome → String
denial_text call o =
    if str_eq o.reason ""
    then str_append "permission denied for '" (str_append call.tool "'")
    else o.reason

-- `outcome.rule is not None and outcome.rule.decision == ASK`
abbrev pub by_asking : Option Rule → Bool
by_asking none = false
by_asking (some r) = elim r.decision [ ask ↦ true | _ ↦ false ]

-- the decision that an evaluation becomes, and the hook that it leaves
unfoldable pub hook_outcome : Evaluation → Option HookDecision × PermissionHook
unfolding audit_record denial_text
hook_outcome r = elim r.outcome.decision [
  | allow ↦ (
    some (HD.allow none (some (audit_record r.call r.outcome))),
    record {
      engine = r.engine;
      approved = if by_asking r.outcome.rule then some (approval_of r.call r.engine) else none;
    },
  )
  | deny ↦ (
    some (HD.deny (denial_text r.call r.outcome) false (some (audit_record r.call r.outcome))),
    record { engine = r.engine; approved = none },
  )
  | _ ↦ (none, record { engine = r.engine; approved = none })
]

-- `on_event`; the call is the one in the payload, as the evaluation left it
unfoldable pub on_event :
    Host → LifecycleEvent → Option ToolCall → PermissionHook → Option HookDecision × PermissionHook
on_event h event none p = (none, p)
on_event h event (some call) p =
    let r = evaluate h call p.engine in if is_pre_tool_use event then hook_outcome r else (none, p)

-- `check_permission`
unfoldable pub check_permission : Host → ToolCall → PermissionHook → Bool × PermissionHook
check_permission h call p = elim p.approved [
  | some approved ↦
      if same_value approved (approval_of call p.engine)
      then (true, record { engine = p.engine; approved = none })
      else (
        false,
        record {
          engine = record_denial call none "Approved action or policy changed" p.engine;
          approved = none;
        },
      )
  | none ↦
      let r = evaluate h call p.engine in
      (
        elim r.outcome.decision [ deny ↦ false | _ ↦ true ],
        record { engine = r.engine; approved = none },
      )
]
