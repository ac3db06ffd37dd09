-- ===== src/Recovery/Attempts.antt =====
-- How many times each scenario is recovered.
use looplet.Prelude.{
  Bool, Bool-cases, List, Option, Option-cases, ap, arith, eq_iff, eq_refl, false, if◌then◌else◌,
  inl, inr, leb, min, none, or_else, refl, some, str_eq, suc, sym, true, ℕ, ◌+◌, ◌-◌, ◌∙◌, ◌≡◌,
}
use looplet.Prelude.Dict.{insert, lookup, lookup-insert}
use looplet.Prelude.Meter.{Meter, grants, grants-left, requests}
use looplet.Value.{Fields}
use looplet.Recovery.{
  Attempt, FailureScenario, RecoveryAction, RecoveryRegistry, acted, attempt_recovery, get_attempts,
  handler_raised, no_action, outcome_of, scenario_value,
}

-- attempts that the registry still allows for a scenario
abbrev pub attempts_left : FailureScenario → RecoveryRegistry → ℕ
attempts_left s r =
    (elim (lookup (scenario_value s) r.recipes) [ none ↦ 0 | some recipe ↦ recipe.max_attempts ])
    - get_attempts s r

abbrev pub is_attempt : Attempt → Bool
is_attempt no_action = false
is_attempt (acted a) = true
is_attempt handler_raised = true

abbrev pub same_scenario : FailureScenario → FailureScenario → Bool
same_scenario s t = str_eq (scenario_value s) (scenario_value t)

outcome_of-is_attempt : (o : Option RecoveryAction) → is_attempt (outcome_of o) ≡ true
outcome_of-is_attempt none = refl
outcome_of-is_attempt (some a) = refl

get_attempts-insert :
    (s t : FailureScenario) (n : ℕ) (r : RecoveryRegistry)
    → get_attempts t (record r { attempt_counts = insert (scenario_value s) n r.attempt_counts })
      ≡ (if same_scenario s t then n else get_attempts t r)
unfolding get_attempts
get_attempts-insert s t n r = elim (Bool-cases (same_scenario s t)) [
  | inl e ↦ rw (lookup-insert (scenario_value s) (scenario_value t) n r.attempt_counts, e)
  | inr e ↦ rw (lookup-insert (scenario_value s) (scenario_value t) n r.attempt_counts, e)
]

-- one request: a scenario and its context
abbrev pub attempt : FailureScenario × Fields → RecoveryRegistry → Bool × RecoveryRegistry
attempt (s, context) r =
    let (outcome, after) = attempt_recovery s context r in (is_attempt outcome, after)

module _ (t : FailureScenario) where
  recipes_kept :
      (s : FailureScenario) (context : Fields) (r : RecoveryRegistry)
      → (attempt_recovery s context r).1.recipes ≡ r.recipes
  unfolding attempt_recovery
  recipes_kept s context r = elim (Option-cases (lookup (scenario_value s) r.recipes)) [
    | inl e ↦ rw (attempt_recovery, e)
    | inr (recipe, e) ↦ elim (Bool-cases (leb recipe.max_attempts (get_attempts s r))) [
      | inl b ↦ rw (attempt_recovery, e, b)
      | inr b ↦ rw (attempt_recovery, e, b)
    ]
  ]

  pub attempts_elsewhere :
      (s : FailureScenario) (context : Fields) (r : RecoveryRegistry)
      → same_scenario s t ≡ false
      → attempts_left t (attempt_recovery s context r).1 ≡ attempts_left t r
  unfolding attempt_recovery
  attempts_elsewhere s context r n = elim (Option-cases (lookup (scenario_value s) r.recipes)) [
    | inl e ↦ rw (attempt_recovery, e)
    | inr (recipe, e) ↦ elim (Bool-cases (leb recipe.max_attempts (get_attempts s r))) [
      | inl b ↦ rw (attempt_recovery, e, b)
      | inr b ↦ rw (attempt_recovery, e, b, get_attempts-insert s t (get_attempts s r + 1) r, n)
    ]
  ]

  nothing : (c n : ℕ) → 0 - c ≡ suc n → ⊥
  nothing c n h = omega arith

  full : (m c : ℕ) → m - c ≡ 0 → leb m c ≡ true
  full m c h = ground arith

  open_yet : (m c n : ℕ) → m - c ≡ suc n → leb m c ≡ false
  open_yet m c n h = ground arith

  pub attempts_spent :
      (s : FailureScenario) (context : Fields) (r : RecoveryRegistry)
      → attempts_left s r ≡ 0
      → attempt_recovery s context r ≡ (no_action, r)
  unfolding attempt_recovery
  attempts_spent s context r h = elim (Option-cases (lookup (scenario_value s) r.recipes)) [
    | inl e ↦ rw (attempt_recovery, e)
    | inr (recipe, e) ↦
        let b = full recipe.max_attempts (get_attempts s r) (rw e at h) in
        rw (attempt_recovery, e, b)
  ]

  pub attempts_granted :
      (s : FailureScenario) (context : Fields) (r : RecoveryRegistry) (n : ℕ)
      → attempts_left s r ≡ suc n
      → (is_attempt (attempt_recovery s context r).0 ≡ true)
        × (attempts_left s (attempt_recovery s context r).1 ≡ n)
  unfolding attempt_recovery
  attempts_granted s context r n h = elim (Option-cases (lookup (scenario_value s) r.recipes)) [
    | inl e ↦
        let none_left : 0 - get_attempts s r ≡ suc n = rw e at h in elim (nothing _ _ none_left) [ ]
    | inr (recipe, e) ↦
        let left : recipe.max_attempts - get_attempts s r ≡ suc n = rw e at h in
        let b = open_yet recipe.max_attempts (get_attempts s r) n left in
        rw (attempt_recovery, e, b)
          (
            outcome_of-is_attempt (recipe.handler context),
            rw (e, get_attempts-insert s s (get_attempts s r + 1) r, eq_refl (scenario_value s))
                (omega arith),
          )
  ]

pub attempts_left-same :
    (s t : FailureScenario) (r : RecoveryRegistry)
    → same_scenario s t ≡ true
    → attempts_left s r ≡ attempts_left t r
unfolding get_attempts
attempts_left-same s t r e =
    ap
      (λ k.
        (elim (lookup k r.recipes) [ none ↦ 0 | some recipe ↦ recipe.max_attempts ])
        - or_else (lookup k r.attempt_counts) 0)
      ((eq_iff (scenario_value s) (scenario_value t)).0 e)

-- the attempts of one scenario, as a meter of their own
abbrev pub scenario_meter : FailureScenario → Meter (FailureScenario × Fields) RecoveryRegistry
scenario_meter t = record {
  ask = attempt;
  mine = λ a. same_scenario a.0 t;
  left = attempts_left t;
  elsewhere = λ a r n. attempts_elsewhere t a.0 a.1 r n;
  spent = λ a r n h.
      let none_left : attempts_left a.0 r ≡ 0 = attempts_left-same a.0 t r n ∙ h in
      let stays = attempts_spent t a.0 a.1 r none_left in (rw stays, rw stays h);
  granted = λ a r k n h.
      let (acts, fewer) = attempts_granted t a.0 a.1 r k (attempts_left-same a.0 t r n ∙ h) in
      (acts, sym (attempts_left-same a.0 t _ n) ∙ fewer);
}

-- In any sequence of failures exactly the first ones of a scenario are given to its handler: as many
-- as its recipe's limit leaves, none if it has no recipe, whatever other scenarios fail in between.
pub attempts_granted-left :
    (t : FailureScenario) (failures : List (FailureScenario × Fields)) (r : RecoveryRegistry)
    → grants (scenario_meter t) failures r
      ≡ min (attempts_left t r) (requests (scenario_meter t) failures)
attempts_granted-left t failures r = grants-left (scenario_meter t) failures r
