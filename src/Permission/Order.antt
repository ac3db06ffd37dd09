-- ===== src/Permission/Order.antt =====
-- The order in which rules are read.
use looplet.Prelude.{
  Bool-cases, List, Option, [], false, inl, inr, none, some, subst, true, ◌∷◌, ◌≡◌,
}
use mathlib.Core.Path.{subst}
use looplet.Types.{ToolCall}
use looplet.Permission.{
  Engine, Evaluation, Host, Rule, conclude, decide_rule, match_rule, resolve_default,
}

-- The first rule that applies, with the flag of a matcher that raised.
pub data FirstMatch (h : Host) (call : ToolCall) : List Rule → Option Rule → Type 0 where
  no_rule : FirstMatch h call [] none
  found :
      (r : Rule) (rs : List Rule)
      → (match_rule h r call).0 ≡ true
      → FirstMatch h call (r ∷ rs) (some r)
  later :
      (r : Rule) (rs : List Rule) {o : Option Rule}
      → (match_rule h r call).0 ≡ false
      → FirstMatch h call rs o
      → FirstMatch h call (r ∷ rs) o

-- What evaluating must come to, told from the first rule that applies.
unfoldable pub verdict_of : Host → ToolCall → Engine → Option Rule → Evaluation
verdict_of h call e none = conclude call (resolve_default e) none "no rule matched" e
verdict_of h call e (some r) =
    let (v, done) = decide_rule h call r (match_rule h r call).1 e in
    conclude done.call v (some done.rule) done.rule.reason done.engine

-- There is always a first rule that applies, or none does.
pub FirstMatch-total :
    (h : Host) (call : ToolCall) (rules : List Rule) → (o : Option Rule) × FirstMatch h call rules o
FirstMatch-total h call [] = (none, no_rule)
FirstMatch-total h call (r ∷ rs) = elim (Bool-cases (match_rule h r call).0) [
  | inl m ↦ (some r, found r rs m)
  | inr m ↦ let (o, f) = FirstMatch-total h call rs in (o, later r rs m f)
]
