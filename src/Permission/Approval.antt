-- ===== src/Permission/Approval.antt =====
-- The two gates of a call that a human approved: `on_event` remembers the approval, and
-- `check_permission` spends it.
use looplet.Prelude.{
  Bool-cases, List, Option, String, [], ap, arith, eq_iff, if◌then◌else◌, inl, inr, none, refl,
  some, str_eq, sym, true, ℕ, ◌∙◌, ◌∷◌, ◌≡◌, ◌≢◌,
}
use looplet.Value.{Value, dict}
use looplet.Value.Same.{Access, at, observe, same_value}
use looplet.Value.Observe.{observe-same}
use looplet.Value.Reflexive.{IsKeyed, IsKeyedItems, same_value_refl}
use looplet.Types.{ToolCall, pre_tool_use}
use looplet.HookDecision.{HookDecision}
use looplet.HookDecision as HD
use looplet.Permission.Decisive.{IsDecisive, evaluate-IsDecisive}
use Prim.Native.String.{count, ◌++◌ as str_append}
use text.Mathlib.TextLemmas.{length-append as count-append}
use looplet.Permission.{
  Verdict, Outcome, Engine, Evaluation, Host, Rule, evaluate, policy_snapshot, record_denial,
  rule_snapshots, verdict_value, reference,
}
use looplet.Permission as Perm
use looplet.Permission.Hook.{
  PermissionHook, approval_of, by_asking, check_permission, denial_text, hook_outcome, on_event,
}

-- While an approval is remembered, the permission check passes exactly the action that was approved,
-- under the policy that was in force; the approval is spent either way, and a mismatch is logged.
pub check_permission_approved :
    (h : Host) (call : ToolCall) (p : PermissionHook) (v : Value)
    → p.approved ≡ some v
    → let (passed, p') = check_permission h call p in
      (passed ≡ same_value v (approval_of call p.engine))
      × (p'.approved ≡ none)
      × (p'.engine ≡ (
          if same_value v (approval_of call p.engine)
          then p.engine
          else record_denial call none "Approved action or policy changed" p.engine))
unfolding check_permission
check_permission_approved h call p v a =
    elim (Bool-cases (same_value v (approval_of call p.engine))) [
      | inl s ↦ rw (a, check_permission, s) (refl, refl, refl)
      | inr s ↦ rw (a, check_permission, s) (refl, refl, refl)
    ]

-- If a call passes on a remembered approval, then at every path into its arguments it shows what the
-- approved call showed there, and its tool is the approved tool.
pub check_permission_same_action :
    (h : Host) (approved call : ToolCall) (e : Engine) (p : PermissionHook)
    → p.approved ≡ some (approval_of approved e)
    → (check_permission h call p).0 ≡ true
    → ((path : List Access) → observe path (dict approved.args) ≡ observe path (dict call.args))
      × (approved.tool ≡ call.tool)
      × (approved.ident ≡ call.ident)
unfolding approval_of
check_permission_same_action h approved call e p a passed =
    let same : same_value (approval_of approved e) (approval_of call p.engine) ≡ true =
      sym (check_permission_approved h call p _ a).0 ∙ passed in
    let seen = observe-same (approval_of approved e) (approval_of call p.engine) same in
    (λ path. seen (at 3 ∷ path), cc (seen (at 2 ∷ [])), cc (seen (at 0 ∷ [])))

reference-IsKeyed : (o : Option ℕ) → IsKeyed (reference o)
unfolding IsKeyed
reference-IsKeyed none = tt
reference-IsKeyed (some i) = tt

rule_snapshots-IsKeyed : (rs : List Rule) → IsKeyedItems (rule_snapshots rs)
unfolding IsKeyed rule_snapshots
rule_snapshots-IsKeyed [] = tt
rule_snapshots-IsKeyed (r ∷ rs) =
    ((tt, (tt, (tt, (reference-IsKeyed r.arg_matcher, (tt, tt))))), rule_snapshots-IsKeyed rs)

approval_of-IsKeyed :
    (call : ToolCall) (e : Engine)
    → IsKeyed (dict call.args)
    → IsKeyed e.policy_version
    → IsKeyed (approval_of call e)
unfolding IsKeyed approval_of policy_snapshot
approval_of-IsKeyed call e kc kp = (
  tt,
  (
    tt,
    (
      tt,
      (
        kc,
        ((kp, (tt, (reference-IsKeyed e.ask_handler, (rule_snapshots-IsKeyed e.rules, tt)))), tt),
      ),
    ),
  ),
)

remembered :
    (r : Evaluation)
    → r.outcome.decision ≡ Perm.allow
    → by_asking r.outcome.rule ≡ true
    → (hook_outcome r).1
      ≡ record { engine = r.engine; approved = some (approval_of r.call r.engine) }
unfolding hook_outcome
remembered r granted asked = rw (granted, asked)

-- An approved action is not asked about again: after an approval by an ASK rule the unchanged call
-- passes the second gate, and the engine is as the first gate left it.
pub check_permission_after_approval :
    (h : Host) (call : ToolCall) (p : PermissionHook) (rule : Rule)
    → IsKeyed (dict call.args)
    → IsKeyed p.engine.policy_version
    → (evaluate h call p.engine).outcome.decision ≡ Perm.allow
    → (evaluate h call p.engine).outcome.rule ≡ some rule
    → rule.decision ≡ Perm.ask
    → (evaluate h call p.engine).call ≡ call
    → (evaluate h call p.engine).engine ≡ p.engine
    → check_permission h call (on_event h pre_tool_use (some call) p).1
      ≡ (true, record { engine = p.engine; approved = none })
unfolding on_event check_permission
check_permission_after_approval h call p rule kc kp granted r asked same_call same_engine =
    rw (remembered (evaluate h call p.engine) granted (rw (r, asked)), same_call, same_engine)
      (rw (check_permission, same_value_refl _ (approval_of-IsKeyed call p.engine kc kp)))

-- The answer that a verdict calls for: `allow`, or a denial with a reason that is not empty.
abbrev pub Answers : Option HookDecision → Verdict → Type 0
Answers none v = ⊥
Answers (some d) Verdict.allow = d.permission ≡ some "allow"
Answers (some d) Verdict.deny =
    (d.permission ≡ some "deny") × (reason : String) × (d.block ≡ some reason) × (reason ≢ "")
Answers (some d) v = ⊥

denial_text-ne-empty : (call : ToolCall) (o : Outcome) → denial_text call o ≢ ""
unfolding denial_text
denial_text-ne-empty call o = elim (Bool-cases (str_eq o.reason "")) [
  | inl e ↦ rw e λ p. omega (
    arith,
    count-append "permission denied for '" (str_append call.tool "'"),
    ap (λ (s : String). count s) p,
  )
  | inr e ↦ rw e (λ p. cc ((eq_iff o.reason "").1 p))
]

hook_outcome-Answers :
    (r : Evaluation) → IsDecisive r.outcome.decision → Answers (hook_outcome r).0 r.outcome.decision
unfolding hook_outcome HD.allow HD.deny
hook_outcome-Answers r (inl g) = rw g refl
hook_outcome-Answers r (inr g) = rw g (refl, _, refl, denial_text-ne-empty r.call r.outcome)

-- Before a tool runs the hook always answers, as the engine decided: `allow` for a granted call, a
-- denial with a reason that is not empty for a denied one.
pub on_event-Answers :
    (h : Host) (call : ToolCall) (p : PermissionHook)
    → Answers (on_event h pre_tool_use (some call) p).0 (evaluate h call p.engine).outcome.decision
unfolding on_event
on_event-Answers h call p =
    hook_outcome-Answers (evaluate h call p.engine) (evaluate-IsDecisive h call p.engine)
