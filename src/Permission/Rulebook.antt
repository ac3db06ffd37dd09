-- ===== src/Permission/Rulebook.antt =====
-- What deciding a call must come to, told from the rules without the engine's own tests: which rule
-- is the first to apply, what it then comes to, and what is left behind.
use looplet.Prelude.{
  Bool, List, Option, String, [], false, none, some, true, ℕ, ◌++◌, ◌∷◌, ◌≡◌, ◌⊎◌,
}
use looplet.Types.{ToolCall}
use looplet.Permission.{
  Engine, Evaluation, Handled, Host, Rule, allow, answered, ask, default, deny, matcher_raised,
  untouched,
}
use looplet.Permission.Decisive.{Grants}
use looplet.Permission.Audit.{denial_of, logged_if}

module _ (h : Host) (call : ToolCall) where
  -- the rule is for every tool, or for the tool of the call
  abbrev pub Names : Rule → Type 0
  Names r = (r.tool ≡ "*") ⊎ (r.tool ≡ call.tool)

  -- what the matcher of a rule comes to: there is none, it answers, or it raises
  pub data Asks (r : Rule) : Type 0 where
    no_matcher : r.arg_matcher ≡ none → Asks r
    answers : (m : ℕ) → r.arg_matcher ≡ some m → h.matcher m call.args ≡ answered true → Asks r

  pub data Fails (r : Rule) : Type 0 where
    raises : (m : ℕ) → r.arg_matcher ≡ some m → h.matcher m call.args ≡ matcher_raised → Fails r

  -- A rule applies cleanly; or its matcher raises, and the rule denies or asks.
  pub data Applies (r : Rule) : Bool → Type 0 where
    cleanly : Names r → Asks r → Applies r false
    strictly : Names r → Fails r → (r.decision ≡ deny) ⊎ (r.decision ≡ ask) → Applies r true

  pub data Skips (r : Rule) : Type 0 where
    other_tool : (Names r → ⊥) → Skips r
    answers_no : (m : ℕ) → r.arg_matcher ≡ some m → h.matcher m call.args ≡ answered false → Skips r
    leniently : Fails r → (r.decision ≡ allow) ⊎ (r.decision ≡ default) → Skips r

  -- the first rule that applies, and whether its matcher raised
  pub data FirstApplying : List Rule → Option (Rule × Bool) → Type 0 where
    none_applies : FirstApplying [] none
    applies :
        (r : Rule) (rs : List Rule) {b : Bool} → Applies r b → FirstApplying (r ∷ rs) (some (r, b))
    skips :
        (r : Rule) (rs : List Rule) {o : Option (Rule × Bool)}
        → Skips r
        → FirstApplying rs o
        → FirstApplying (r ∷ rs) o

  -- a rule that applies without a failure grants the call
  abbrev pub IsGranted : Rule → Bool → Engine → Type 0
  IsGranted r failed e = (failed ≡ false) × Grants h call r e

  -- The handler is asked, once, if the rule asks, its matcher did not raise and there is a handler.
  pub data Leaves (r : Rule) (failed : Bool) (e : Engine) : Handled → Type 0 where
    asked :
        failed ≡ false
        → r.decision ≡ ask
        → (i : ℕ) → e.ask_handler ≡ some i
        → Leaves r failed e (h.handler i call r e)
    unasked :
        (r.decision ≡ ask → (failed ≡ true) ⊎ (e.ask_handler ≡ none))
        → Leaves r failed e (untouched call r e)

  -- The evaluation allows if there is cause and denies otherwise, gives rule and reason, and the
  -- log has grown by the denial if there is one.
  abbrev pub Ends : Type 0 → ToolCall → Engine → Option Rule → String → Evaluation → Type 0
  Ends G left e rule reason x =
      (((x.outcome.decision ≡ allow) × G) ⊎ ((x.outcome.decision ≡ deny) × (G → ⊥)))
      × (x.outcome.rule ≡ rule)
      × (x.outcome.reason ≡ reason)
      × (x.call ≡ left)
      × (x.engine ≡ record e {
        denials = e.denials ++ logged_if x.outcome.decision (denial_of left rule reason);
      })

  abbrev pub Decides : Engine → Option (Rule × Bool) → Evaluation → Type 0
  Decides e none x = Ends (e.fallback ≡ allow) call e none "no rule matched" x
  Decides e (some (r, failed)) x =
      (done : Handled) × Leaves r failed e done
      × Ends (IsGranted r failed e) done.call done.engine (some done.rule) done.rule.reason x
