-- ===== src/Permission/Tests.antt =====
-- The permission theorems at concrete policies.
use looplet.Prelude.{
  Bool, List, Option, String, [], false, if◌then◌else◌, none, refl, some, true, ℕ, ◌==◌, ◌∷◌, ◌≡◌,
}
use looplet.Value.{dict, end, field, null, text}
use looplet.Value.Same.{Access, observe, same_value}
use looplet.Types.{ToolCall}
use looplet.Permission.{
  Engine, Host, Rule, Verdict, allow, answered, ask, conclude, decide_rule, decided, deny, evaluate,
  evaluate_rules, match_rule, matcher_raised, policy_snapshot, record_denial, rule_snapshots,
  verdict_value, allow, deny, ask,
}
use looplet.Permission.Hook.{PermissionHook, approval_of, check_permission}
use looplet.Permission.Rulebook.{Decides, FirstApplying}
use looplet.Permission.Told.{evaluate-Decides}
use looplet.Permission.Approval.{check_permission_same_action}

abbrev bash_call : ToolCall
bash_call = record {
  ident = 7;
  tool = "bash";
  args = field "cmd" (text "ls") (field "__theory__" (text "look around") end);
  reasoning = "";
  call_id = "c1";
  metadata = end;
}

-- matcher 1 raises, any other answers yes; the handler says yes and changes nothing
abbrev host : Host
host = record {
  matcher = λ m args. if m == 1 then matcher_raised else answered true;
  handler = λ i call r e. record { call = call; rule = r; engine = e; answer = decided allow };
}

abbrev rule_for : Verdict → String → Option ℕ → Rule
rule_for v tool m = record {
  ident = 0;
  tool = tool;
  decision = v;
  arg_matcher = m;
  reason = "policy";
}

abbrev engine_with : List Rule → Option ℕ → Engine
engine_with rules handler = record {
  rules = rules;
  fallback = allow;
  ask_handler = handler;
  denials = [];
  policy_version = null;
}

-- an ALLOW whose matcher raises is passed over, and the ASK behind it decides
abbrev asking : Engine
asking = engine_with (rule_for allow "*" (some 1) ∷ rule_for ask "bash" none ∷ []) (some 3)

-- a DENY whose matcher raises denies
abbrev guarded : Engine
guarded = engine_with (rule_for deny "bash" (some 1) ∷ []) none

evaluate-guarded :
    (evaluate host bash_call guarded).engine.denials
    ≡ record {
      tool = "bash";
      args = field "cmd" (text "ls") end;
      rule = some "bash";
      reason = "policy";
    }
      ∷ []
unfolding evaluate evaluate_rules match_rule decide_rule conclude record_denial
evaluate-guarded = refl

evaluate-Decides_example :
    (o : Option (Rule × Bool)) × FirstApplying host bash_call asking.rules o
    × Decides host bash_call asking o (evaluate host bash_call asking)
evaluate-Decides_example = evaluate-Decides host bash_call asking

abbrev hook_of : Engine → PermissionHook
hook_of e = record { engine = e; approved = none }

abbrev approved_hook : PermissionHook
approved_hook = record { engine = asking; approved = some (approval_of bash_call asking) }

-- the same call, with another command
abbrev swapped : ToolCall
swapped = record bash_call { args = field "cmd" (text "rm") end }

swapped_refused : (check_permission host swapped approved_hook).0 ≡ false
unfolding check_permission approval_of same_value
swapped_refused = refl

check_permission_same_action_example :
    ((path : List Access) → observe path (dict bash_call.args) ≡ observe path (dict bash_call.args))
    × ("bash" ≡ bash_call.tool)
    × (bash_call.ident ≡ bash_call.ident)
unfolding check_permission approval_of same_value policy_snapshot rule_snapshots verdict_value
check_permission_same_action_example =
    check_permission_same_action host bash_call bash_call asking approved_hook refl refl
