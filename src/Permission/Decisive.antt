-- ===== src/Permission/Decisive.antt =====
-- The decisions that the engine ends in.
use looplet.Prelude.{
  Bool, Bool-cases, List, Option, [], arith, false, inl, inr, none, refl, some, true, ℕ, ◌∷◌, ◌≡◌,
  ◌⊎◌,
}
use looplet.Value.Same.{same_value}
use looplet.Types.{ToolCall}
use looplet.Permission.{
  Engine, Handled, Host, Rule, Verdict, action_of, allow, ask, ask_human, conclude, decide_by,
  decide_rule, decided, default, deny, evaluate, evaluate_rules, match_rule, narrow,
  policy_snapshot, resolve_default,
}

abbrev pub IsDecisive : Verdict → Type 0
IsDecisive v = (v ≡ allow) ⊎ (v ≡ deny)

pub resolve_default-IsDecisive : (e : Engine) → IsDecisive (resolve_default e)
unfolding resolve_default
resolve_default-IsDecisive e = ground arith

narrow-IsDecisive :
    (call : ToolCall) (e : Engine) (done : Handled) → IsDecisive (narrow call e done)
unfolding narrow
narrow-IsDecisive call e done = ground arith

ask_human-IsDecisive :
    (h : Host) (call : ToolCall) (rule : Rule) (e : Engine) (handler : Option ℕ)
    → IsDecisive (ask_human h call rule e handler).0
unfolding ask_human
ask_human-IsDecisive h call rule e none = inr refl
ask_human-IsDecisive h call rule e (some i) = narrow-IsDecisive call e (h.handler i call rule e)

decide_by-IsDecisive :
    (h : Host) (call : ToolCall) (rule : Rule) (failed : Bool) (e : Engine) (v : Verdict)
    → IsDecisive (decide_by h call rule failed e v).0
unfolding decide_by
decide_by-IsDecisive h call rule failed e allow = inl refl
decide_by-IsDecisive h call rule failed e deny = inr refl
decide_by-IsDecisive h call rule failed e default = resolve_default-IsDecisive e
decide_by-IsDecisive h call rule true e ask = inr refl
decide_by-IsDecisive h call rule false e ask = ask_human-IsDecisive h call rule e e.ask_handler

pub decide_rule-IsDecisive :
    (h : Host) (call : ToolCall) (rule : Rule) (failed : Bool) (e : Engine)
    → IsDecisive (decide_rule h call rule failed e).0
unfolding decide_rule
decide_rule-IsDecisive h call rule failed e =
    decide_by-IsDecisive h call rule failed e rule.decision

evaluate_rules-IsDecisive :
    (h : Host) (call : ToolCall) (e : Engine) (rules : List Rule)
    → IsDecisive (evaluate_rules h call e rules).outcome.decision
unfolding evaluate_rules conclude
evaluate_rules-IsDecisive h call e [] = resolve_default-IsDecisive e
evaluate_rules-IsDecisive h call e (r ∷ rs) = elim (Bool-cases (match_rule h r call).0) [
  | inl m ↦ rw m (decide_rule-IsDecisive h call r (match_rule h r call).1 e)
  | inr m ↦ rw m (evaluate_rules-IsDecisive h call e rs)
]

-- Whatever the rules, the default, the matchers and the handler do, evaluating a call ends in ALLOW
-- or DENY: ASK and DEFAULT never leak out.
pub evaluate-IsDecisive :
    (h : Host) (call : ToolCall) (e : Engine) → IsDecisive (evaluate h call e).outcome.decision
unfolding evaluate
evaluate-IsDecisive h call e = evaluate_rules-IsDecisive h call e e.rules

-- The human was asked, said yes, and changed neither the action nor the policy.
pub record IsApproved (h : Host) (call : ToolCall) (rule : Rule) (e : Engine) (i : ℕ) : Type 0 where
  pub asked : e.ask_handler ≡ some i
  pub said_yes : (h.handler i call rule e).answer ≡ decided allow
  pub same_action : same_value (action_of call) (action_of (h.handler i call rule e).call) ≡ true
  pub same_policy :
      same_value (policy_snapshot e) (policy_snapshot (h.handler i call rule e).engine) ≡ true

-- Why a rule that applies grants the call.
pub data Grants (h : Host) (call : ToolCall) (rule : Rule) (e : Engine) : Type 0 where
  by_rule : rule.decision ≡ allow → Grants h call rule e
  by_default : rule.decision ≡ default → e.fallback ≡ allow → Grants h call rule e
  by_approval : rule.decision ≡ ask → (i : ℕ) → IsApproved h call rule e i → Grants h call rule e

narrow-allow :
    (call : ToolCall) (e : Engine) (done : Handled)
    → narrow call e done ≡ allow
    → (done.answer ≡ decided allow)
      × (same_value (action_of call) (action_of done.call) ≡ true)
      × (same_value (policy_snapshot e) (policy_snapshot done.engine) ≡ true)
unfolding narrow
narrow-allow call e done g = ground arith

pub resolve_default-allow : (e : Engine) → resolve_default e ≡ allow → e.fallback ≡ allow
unfolding resolve_default
resolve_default-allow e g = ground arith

ask_human-allow :
    (h : Host) (call : ToolCall) (rule : Rule) (e : Engine) (handler : Option ℕ)
    → e.ask_handler ≡ handler
    → (ask_human h call rule e handler).0 ≡ allow
    → (i : ℕ) × IsApproved h call rule e i
unfolding ask_human
ask_human-allow h call rule e none eh g = cc
ask_human-allow h call rule e (some i) eh g =
    let (yes_said, action, policy) = narrow-allow call e (h.handler i call rule e) g in
    (i, record { asked = eh; said_yes = yes_said; same_action = action; same_policy = policy })

decide_by-allow :
    (h : Host) (call : ToolCall) (rule : Rule) (failed : Bool) (e : Engine) (v : Verdict)
    → rule.decision ≡ v
    → (decide_by h call rule failed e v).0 ≡ allow
    → Grants h call rule e
unfolding decide_by
decide_by-allow h call rule failed e allow ev g = by_rule ev
decide_by-allow h call rule failed e deny ev g = cc
decide_by-allow h call rule failed e default ev g = by_default ev (resolve_default-allow e g)
decide_by-allow h call rule true e ask ev g = cc
decide_by-allow h call rule false e ask ev g =
    let (i, approved) = ask_human-allow h call rule e e.ask_handler refl g in
    by_approval ev i approved

pub decide_rule-allow :
    (h : Host) (call : ToolCall) (rule : Rule) (failed : Bool) (e : Engine)
    → (decide_rule h call rule failed e).0 ≡ allow
    → Grants h call rule e
unfolding decide_rule
decide_rule-allow h call rule failed e g = decide_by-allow h call rule failed e rule.decision refl g

match_rule_raised :
    (h : Host) (call : ToolCall) (rule : Rule)
    → (match_rule h rule call).1 ≡ true
    → (match_rule h rule call).0 ≡ true
    → (rule.decision ≡ deny) ⊎ (rule.decision ≡ ask)
unfolding match_rule
match_rule_raised h call rule failed matched = ground arith

-- A rule whose matcher raised applies only if it denies or asks, and then it denies.
pub raised_never_grants :
    (h : Host) (call : ToolCall) (rule : Rule) (e : Engine)
    → (match_rule h rule call).1 ≡ true
    → (match_rule h rule call).0 ≡ true
    → (decide_rule h call rule (match_rule h rule call).1 e).0 ≡ deny
unfolding decide_rule
raised_never_grants h call rule e failed matched =
    elim (match_rule_raised h call rule failed matched) [
      | inl d ↦ rw (d, decide_by)
      | inr a ↦ rw (failed, a)
    ]
