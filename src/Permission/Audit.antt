-- ===== src/Permission/Audit.antt =====
-- What the audit log records.
use looplet.Prelude.{
  Bool, Bool-cases, List, Option, String, [], arith, eq_iff, false, if◌then◌else◌, inl, inr, none,
  refl, some, starts_with, true, ◌++◌, ◌∷◌, ◌≡◌,
}
use mathlib.Core.List.{append-nil}
use looplet.Value.{Fields, end, field, get}
use looplet.Types.{ToolCall}
use looplet.Permission.{
  Denial, Engine, Evaluation, Host, Rule, Verdict, allow, ask, ask_human, clean_args, conclude,
  decide_by, decide_rule, default, deny, evaluate, evaluate_rules, match_rule, record_denial,
  resolve_default, untouched,
}

-- The recorded arguments are the call's, less exactly the keys that begin with "__".
pub get-clean_args :
    (k : String) (fs : Fields)
    → get k (clean_args fs) ≡ (if starts_with k "__" then none else get k fs)
unfolding clean_args
get-clean_args k end = ground arith
get-clean_args k (field j v fs) = ground (arith, eq_iff j k, get-clean_args k fs)

-- the entry that a denial of the call by the rule leaves
abbrev pub denial_of : ToolCall → Option Rule → String → Denial
denial_of call rule reason = record {
  tool = call.tool;
  args = clean_args call.args;
  rule = elim rule [ none ↦ none | some r ↦ some r.tool ];
  reason = reason;
}

abbrev pub logged_if : Verdict → Denial → List Denial
logged_if deny d = d ∷ []
logged_if _ d = []

pub conclude_logs :
    (call : ToolCall) (v : Verdict) (rule : Option Rule) (reason : String) (e : Engine)
    → let r = conclude call v rule reason e in
      r.engine ≡ record e { denials = e.denials ++ logged_if v (denial_of call rule reason) }
unfolding conclude record_denial
conclude_logs call deny rule reason e = refl
conclude_logs call v rule reason e = rw append-nil

-- Without a handler nothing but the log is touched.
decide_by-untouched :
    (h : Host) (call : ToolCall) (rule : Rule) (failed : Bool) (e : Engine) (v : Verdict)
    → e.ask_handler ≡ none
    → (decide_by h call rule failed e v).1 ≡ untouched call rule e
unfolding decide_by ask_human
decide_by-untouched h call rule failed e allow n = refl
decide_by-untouched h call rule failed e deny n = refl
decide_by-untouched h call rule failed e default n = refl
decide_by-untouched h call rule true e ask n = refl
decide_by-untouched h call rule false e ask n = rw n

decide_rule-untouched :
    (h : Host) (call : ToolCall) (rule : Rule) (failed : Bool) (e : Engine)
    → e.ask_handler ≡ none
    → (decide_rule h call rule failed e).1 ≡ untouched call rule e
unfolding decide_rule
decide_rule-untouched h call rule failed e n =
    decide_by-untouched h call rule failed e rule.decision n

-- The engine after an evaluation, told from its outcome.
abbrev pub IsLogged : ToolCall → Engine → Evaluation → Type 0
IsLogged call e r =
    (r.call ≡ call)
    × (r.engine ≡ record e {
      denials =
          e.denials
          ++ logged_if r.outcome.decision (denial_of call r.outcome.rule r.outcome.reason);
    })

module _ (h : Host) (call : ToolCall) (e : Engine) (no_handler : e.ask_handler ≡ none) where
  conclude-IsLogged :
      (v : Verdict) (rule : Option Rule) (reason : String)
      → IsLogged call e (conclude call v rule reason e)
  unfolding conclude
  conclude-IsLogged v rule reason = (refl, conclude_logs call v rule reason e)

  evaluate_rules-IsLogged : (rules : List Rule) → IsLogged call e (evaluate_rules h call e rules)
  unfolding evaluate_rules
  evaluate_rules-IsLogged [] = conclude-IsLogged (resolve_default e) none "no rule matched"
  evaluate_rules-IsLogged (r ∷ rs) = elim (Bool-cases (match_rule h r call).0) [
    | inr m ↦ rw m (evaluate_rules-IsLogged rs)
    | inl m ↦
        let (v, done) = decide_rule h call r (match_rule h r call).1 e in
        rw (m, decide_rule-untouched h call r (match_rule h r call).1 e no_handler)
          (conclude-IsLogged v (some r) r.reason)
  ]

-- With no approval handler, evaluating a call changes the engine in one way only: a denial appends
-- its entry to the log, any other outcome appends nothing, and the call is as it was.
pub evaluate-IsLogged :
    (h : Host) (call : ToolCall) (e : Engine)
    → e.ask_handler ≡ none
    → IsLogged call e (evaluate h call e)
unfolding evaluate
evaluate-IsLogged h call e n = evaluate_rules-IsLogged h call e n e.rules
