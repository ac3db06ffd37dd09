-- ===== src/Permission.antt =====
-- The permission engine: `PermissionRule`, `PermissionOutcome` and `PermissionEngine` of
-- src/looplet/permissions.py. Callables are objects of the host, named by their identity: what an
-- argument matcher answers and what an approval handler does are the parameter `Host`. A handler may
-- change the call, the rule and the engine, and what it did stays also where it raised.
pub mod Hook
pub mod Decisive
pub mod Order
pub mod Approval
pub mod Audit
pub mod Rulebook
pub mod Told
mod Tests
use looplet.Prelude.{
  Bool, List, Option, String, [], false, if◌then◌else◌, none, not, some, starts_with, str_eq, true,
  ℕ, ◌&&◌, ◌++◌, ◌∷◌,
}
use looplet.Value.{Fields, Items, Value, cons, dict, end, field, int, nil, null, pos, text, tuple}
use looplet.Value.Same.{same_value}
use looplet.Types.{ToolCall}

-- `PermissionDecision`
pub data Verdict : Type 0 where
  allow deny ask default : Verdict

unfoldable pub verdict_value : Verdict → String
verdict_value allow = "allow"
verdict_value deny = "deny"
verdict_value ask = "ask"
verdict_value default = "default"

pub record Rule : Type 0 where
  pub ident : ℕ
  pub tool : String
  pub decision : Verdict
  pub arg_matcher : Option ℕ
  pub reason : String

pub record Outcome : Type 0 where
  pub decision : Verdict
  pub rule : Option Rule
  pub reason : String

-- one entry of the audit log
pub record Denial : Type 0 where
  pub tool : String
  pub args : Fields
  pub rule : Option String
  pub reason : String

pub record Engine : Type 0 where
  pub rules : List Rule
  pub fallback : Verdict
  pub ask_handler : Option ℕ
  pub denials : List Denial
  pub policy_version : Value

pub data Match : Type 0 where
  answered : Bool → Match
  matcher_raised : Match

-- `other_value`: a return value that is no `PermissionDecision`
pub data Answer : Type 0 where
  decided : Verdict → Answer
  other_value : Answer
  handler_raised : Answer

-- what a handler left behind, and its answer
pub record Handled : Type 0 where
  pub call : ToolCall
  pub rule : Rule
  pub engine : Engine
  pub answer : Answer

pub record Host : Type 0 where
  pub matcher : ℕ → Fields → Match
  pub handler : ℕ → ToolCall → Rule → Engine → Handled

-- `PermissionEngine.allow`, `.deny` and `.ask` append a rule, with the verdict of that name
unfoldable pub add_rule : Verdict → ℕ → String → Option ℕ → String → Engine → Engine
add_rule v ident tool matcher reason e = record e {
  rules =
      e.rules
      ++ record { ident = ident; tool = tool; decision = v; arg_matcher = matcher; reason = reason }
        ∷ [];
}

-- `_match`: whether the rule applies, and whether its matcher raised
unfoldable pub match_rule : Host → Rule → ToolCall → Bool × Bool
match_rule h r call =
    if not (str_eq r.tool "*") && not (str_eq r.tool call.tool)
    then (false, false)
    else (elim r.arg_matcher [
      | none ↦ (true, false)
      | some m ↦ elim (h.matcher m call.args) [
        | answered b ↦ (b, false)
        | matcher_raised ↦ (elim r.decision [ deny ↦ true | ask ↦ true | _ ↦ false ], true)
      ]
    ])

-- `_resolve_default`
unfoldable pub resolve_default : Engine → Verdict
resolve_default e = elim e.fallback [ allow ↦ allow | _ ↦ deny ]

-- `{k: v for k, v in args.items() if not k.startswith("__")}`
unfoldable pub clean_args : Fields → Fields
clean_args end = end
clean_args (field k v fs) =
    let rest = clean_args fs in if starts_with k "__" then rest else field k v rest

-- `_record_denial`
unfoldable pub record_denial : ToolCall → Option Rule → String → Engine → Engine
unfolding clean_args
record_denial call rule reason e = record e {
  denials =
      e.denials
      ++ record {
        tool = call.tool;
        args = clean_args call.args;
        rule = elim rule [ none ↦ none | some r ↦ some r.tool ];
        reason = reason;
      }
        ∷ [];
}

-- an object that is compared by identity
abbrev pub reference : Option ℕ → Value
reference none = null
reference (some i) = int (pos i)

unfoldable pub rule_snapshots : List Rule → Items
rule_snapshots [] = nil
rule_snapshots (r ∷ rs) =
    cons
      (tuple (
        cons (int (pos r.ident)) (
          cons (text r.tool) (
            cons (text (verdict_value r.decision))
              (cons (reference r.arg_matcher) (cons (text r.reason) nil))))))
      (rule_snapshots rs)

-- `_policy_snapshot`
unfoldable pub policy_snapshot : Engine → Value
policy_snapshot e = tuple (
    cons e.policy_version (
      cons (text (verdict_value e.fallback))
        (cons (reference e.ask_handler) (cons (tuple (rule_snapshots e.rules)) nil))))

-- `(call.call_id, call.tool, call.args)`
unfoldable pub action_of : ToolCall → Value
action_of call =
    tuple (cons (text call.call_id) (cons (text call.tool) (cons (dict call.args) nil)))

-- the answer of the handler, checked and narrowed to ALLOW or DENY
unfoldable pub narrow : ToolCall → Engine → Handled → Verdict
narrow call e done = elim done.answer [
  | decided allow ↦
      if same_value (action_of call) (action_of done.call)
        && same_value (policy_snapshot e) (policy_snapshot done.engine)
      then allow
      else deny
  | _ ↦ deny
]

-- what is left behind when no handler runs
abbrev pub untouched : ToolCall → Rule → Engine → Handled
untouched call rule e = record { call = call; rule = rule; engine = e; answer = other_value }

-- an ASK whose matcher answered: without a handler the call is denied
unfoldable pub ask_human : Host → ToolCall → Rule → Engine → Option ℕ → Verdict × Handled
ask_human h call rule e none = (deny, untouched call rule e)
ask_human h call rule e (some i) = let done = h.handler i call rule e in (narrow call e done, done)

-- the branches of `evaluate` on the verdict of a rule that applies
unfoldable pub decide_by : Host → ToolCall → Rule → Bool → Engine → Verdict → Verdict × Handled
decide_by h call rule failed e allow = (allow, untouched call rule e)
decide_by h call rule failed e deny = (deny, untouched call rule e)
decide_by h call rule failed e default = (resolve_default e, untouched call rule e)
decide_by h call rule true e ask = (deny, untouched call rule e)
decide_by h call rule false e ask = ask_human h call rule e e.ask_handler

-- the verdict of a rule that applies, with the objects as they are afterwards
unfoldable pub decide_rule : Host → ToolCall → Rule → Bool → Engine → Verdict × Handled
unfolding ask_human decide_by
decide_rule h call rule failed e = decide_by h call rule failed e rule.decision

pub record Evaluation : Type 0 where
  pub outcome : Outcome
  pub engine : Engine
  pub call : ToolCall

-- the outcome, and the denial on the log
unfoldable pub conclude : ToolCall → Verdict → Option Rule → String → Engine → Evaluation
conclude call v rule reason e = record {
  outcome = record { decision = v; rule = rule; reason = reason };
  engine = elim v [ deny ↦ record_denial call rule reason e | _ ↦ e ];
  call = call;
}

unfoldable pub evaluate_rules : Host → ToolCall → Engine → List Rule → Evaluation
evaluate_rules h call e [] = conclude call (resolve_default e) none "no rule matched" e
evaluate_rules h call e (rule ∷ rules) =
    let rest = evaluate_rules h call e rules in
    let (matched, failed) = match_rule h rule call in
    let (v, done) = decide_rule h call rule failed e in
    if matched then conclude done.call v (some done.rule) done.rule.reason done.engine else rest

-- `PermissionEngine.evaluate`
unfoldable pub evaluate : Host → ToolCall → Engine → Evaluation
evaluate h call e = evaluate_rules h call e e.rules
