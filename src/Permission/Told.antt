-- ===== src/Permission/Told.antt =====
-- The engine decides a call as the rules tell.
use looplet.Prelude.{
  Bool, Bool-cases, List, Option, String, [], arith, subst, eq_iff, false, inl, inr, none, refl,
  some, str_eq, sym, true, ℕ, ◌∷◌, ◌≡◌, ◌⊎◌,
}
use looplet.Value.Same.{same_value}
use looplet.Types.{ToolCall}
use looplet.Permission.{
  action_of, policy_snapshot, Engine, Handled, Host, Match, Rule, Verdict, allow, answered, ask,
  ask_human, conclude, decide_by, decide_rule, decided, default, deny, evaluate, evaluate_rules,
  match_rule, matcher_raised, narrow, resolve_default,
}
use looplet.Permission.Decisive.{
  Grants, by_approval, by_default, by_rule, decide_rule-IsDecisive, decide_rule-allow,
}
use looplet.Permission.Audit.{conclude_logs}
use looplet.Permission.Rulebook.{
  Names, Applies, Skips, FirstApplying, IsGranted, Leaves, Ends, Decides, no_matcher, answers,
  raises, cleanly, strictly, other_tool, answers_no, leniently, none_applies, applies, skips, asked,
  unasked,
}

module _ (h : Host) (call : ToolCall) where
  -- what the test of a rule must be
  abbrev Tested : Rule → Bool × Bool → Type 0
  Tested r t = ((t.0 ≡ true) × Applies h call r t.1) ⊎ ((t.0 ≡ false) × Skips h call r)

  Tested-answer :
      (r : Rule) (m : ℕ)
      → Names h call r
      → r.arg_matcher ≡ some m
      → (a : Match) → h.matcher m call.args ≡ a
      → (v : Verdict) → r.decision ≡ v
      → Tested r (elim a [
        | answered b ↦ (b, false)
        | matcher_raised ↦ (elim v [ deny ↦ true | ask ↦ true | _ ↦ false ], true)
      ])
  Tested-answer r m n em (answered true) ea v ev = inl (refl, cleanly n (answers m em ea))
  Tested-answer r m n em (answered false) ea v ev = inr (refl, answers_no m em ea)
  Tested-answer r m n em matcher_raised ea allow ev =
      inr (refl, leniently (raises m em ea) (inl ev))
  Tested-answer r m n em matcher_raised ea default ev =
      inr (refl, leniently (raises m em ea) (inr ev))
  Tested-answer r m n em matcher_raised ea deny ev =
      inl (refl, strictly n (raises m em ea) (inl ev))
  Tested-answer r m n em matcher_raised ea ask ev = inl (refl, strictly n (raises m em ea) (inr ev))

  Tested-matcher :
      (r : Rule)
      → Names h call r
      → (o : Option ℕ) → r.arg_matcher ≡ o
      → Tested r (elim o [
        | none ↦ (true, false)
        | some m ↦ elim (h.matcher m call.args) [
          | answered b ↦ (b, false)
          | matcher_raised ↦ (elim r.decision [ deny ↦ true | ask ↦ true | _ ↦ false ], true)
        ]
      ])
  Tested-matcher r n none em = inl (refl, cleanly n (no_matcher em))
  Tested-matcher r n (some m) em =
      Tested-answer r m n em (h.matcher m call.args) refl r.decision refl

  match_rule-Tested : (r : Rule) → Tested r (match_rule h r call)
  unfolding match_rule
  match_rule-Tested r = elim (Bool-cases (str_eq r.tool "*")) [
    | inl any ↦
        rw (match_rule, any) (Tested-matcher r (inl ((eq_iff r.tool "*").0 any)) r.arg_matcher refl)
    | inr a ↦ elim (Bool-cases (str_eq r.tool call.tool)) [
      | inl same ↦
          rw (match_rule, a, same)
            (Tested-matcher r (inr ((eq_iff r.tool call.tool).0 same)) r.arg_matcher refl)
      | inr b ↦
          rw (match_rule, a, b)
            (inr (
              refl,
              other_tool (λ n. elim n [
                | inl e ↦ cc ((eq_iff r.tool "*").1 e)
                | inr e ↦ cc ((eq_iff r.tool call.tool).1 e)
              ]),
            ))
    ]
  ]

  narrow-allows :
      (e : Engine) (done : Handled)
      → done.answer ≡ decided allow
      → same_value (action_of call) (action_of done.call) ≡ true
      → same_value (policy_snapshot e) (policy_snapshot done.engine) ≡ true
      → narrow call e done ≡ allow
  unfolding narrow
  narrow-allows e done said action policy = ground arith

  Grants-allows :
      (r : Rule) (e : Engine) → Grants h call r e → (decide_rule h call r false e).0 ≡ allow
  unfolding decide_rule decide_by ask_human narrow resolve_default
  Grants-allows r e (by_rule d) = rw (decide_rule, d) refl
  Grants-allows r e (by_default d f) = rw (decide_rule, d, resolve_default, f) refl
  Grants-allows r e (by_approval d i a) =
      subst (λ v. (decide_by h call r false e v).0 ≡ allow) (sym d)
        (subst (λ o. (ask_human h call r e o).0 ≡ allow) (sym a.asked)
          (narrow-allows e (h.handler i call r e) a.said_yes a.same_action a.same_policy))

  decide_rule-Grants :
      (r : Rule) (failed : Bool) (e : Engine)
      → Applies h call r failed
      → let v = (decide_rule h call r failed e).0 in
        ((v ≡ allow) × IsGranted h call r failed e)
        ⊎ ((v ≡ deny) × (IsGranted h call r failed e → ⊥))
  unfolding decide_rule decide_by
  decide_rule-Grants r false e (cleanly n a) = elim (decide_rule-IsDecisive h call r false e) [
    | inl yes_given ↦ inl (yes_given, (refl, decide_rule-allow h call r false e yes_given))
    | inr refused ↦ inr (refused, λ g. cc (Grants-allows r e g.1))
  ]
  decide_rule-Grants r true e (strictly n f (inl d)) = inr (rw (decide_rule, d) refl, λ g. cc (g.0))
  decide_rule-Grants r true e (strictly n f (inr d)) = inr (rw (decide_rule, d) refl, λ g. cc (g.0))

  ask_human-Leaves :
      (r : Rule) (e : Engine) (o : Option ℕ)
      → r.decision ≡ ask
      → e.ask_handler ≡ o
      → Leaves h call r false e (ask_human h call r e o).1
  unfolding ask_human
  ask_human-Leaves r e none d eh = unasked (λ a. inr eh)
  ask_human-Leaves r e (some i) d eh = asked refl d i eh

  decide_by-Leaves :
      (r : Rule) (failed : Bool) (e : Engine) (v : Verdict)
      → r.decision ≡ v
      → Leaves h call r failed e (decide_by h call r failed e v).1
  unfolding decide_by
  decide_by-Leaves r failed e allow d = unasked (λ a. cc)
  decide_by-Leaves r failed e deny d = unasked (λ a. cc)
  decide_by-Leaves r failed e default d = unasked (λ a. cc)
  decide_by-Leaves r true e ask d = unasked (λ a. inl refl)
  decide_by-Leaves r false e ask d = ask_human-Leaves r e e.ask_handler d refl

  decide_rule-Leaves :
      (r : Rule) (failed : Bool) (e : Engine)
      → Leaves h call r failed e (decide_rule h call r failed e).1
  unfolding decide_rule
  decide_rule-Leaves r failed e = decide_by-Leaves r failed e r.decision refl

  conclude-Ends :
      (G : Type 0) (left : ToolCall) (e : Engine) (rule : Option Rule) (reason : String)
      (v : Verdict)
      → ((v ≡ allow) × G) ⊎ ((v ≡ deny) × (G → ⊥))
      → Ends h call G left e rule reason (conclude left v rule reason e)
  unfolding conclude
  conclude-Ends G left e rule reason v cause =
      (cause, refl, refl, refl, conclude_logs left v rule reason e)

  default-caused :
      (e : Engine)
      → let v = resolve_default e in
        ((v ≡ allow) × (e.fallback ≡ allow)) ⊎ ((v ≡ deny) × ((e.fallback ≡ allow) → ⊥))
  unfolding resolve_default
  default-caused e = ground arith

  evaluate_rules-Decides :
      (e : Engine) (rules : List Rule)
      → (o : Option (Rule × Bool)) × FirstApplying h call rules o
        × Decides h call e o (evaluate_rules h call e rules)
  unfolding evaluate_rules
  evaluate_rules-Decides e [] =
      (none, none_applies, conclude-Ends _ call e none "no rule matched" _ (default-caused e))
  evaluate_rules-Decides e (r ∷ rs) = elim (match_rule-Tested r) [
    | inl (m, a) ↦
        let failed = (match_rule h r call).1 in
        let (v, done) = decide_rule h call r failed e in
        (
          some (r, failed),
          applies r rs a,
          (
            done,
            decide_rule-Leaves r failed e,
            rw (evaluate_rules, m)
                (conclude-Ends _ done.call done.engine (some done.rule) done.rule.reason v
                  (decide_rule-Grants r failed e a)),
          ),
        )
    | inr (m, s) ↦
        let (o, first, decides) = evaluate_rules-Decides e rs in
        (o, skips r rs s first, rw (evaluate_rules, m) decides)
  ]

  -- A call is decided by the first rule that applies: the first one for its tool that has no matcher,
  -- whose matcher answers yes, or which denies or asks while its matcher raises. The call is allowed
  -- exactly if the matcher did not raise and the rule grants it, by its verdict, by the default, or by
  -- an approval that changed neither action nor policy; it is denied otherwise. Without such a rule it
  -- is allowed exactly if the default is ALLOW, with the reason "no rule matched". The handler is asked
  -- only by a rule that asks and whose matcher did not raise, the outcome names the rule and its reason
  -- as the handler left them, and a denial, no other outcome, appends one entry to the log.
  pub evaluate-Decides :
      (e : Engine)
      → (o : Option (Rule × Bool)) × FirstApplying h call e.rules o
        × Decides h call e o (evaluate h call e)
  unfolding evaluate
  evaluate-Decides e = evaluate_rules-Decides e e.rules
