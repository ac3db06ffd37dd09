-- ===== src/AgentState/Charge.antt =====
-- What a restored budget allows.
use looplet.Prelude.{
  List, [], ap, arith, min, some, some-injective, subst, ℕ, ◌++◌, ◌+◌, ◌-◌, ◌∙◌, ◌∷◌, ◌≡◌,
}
use looplet.Value.{pos}
use looplet.Types.{Step}
use looplet.AgentState.{
  DefaultState, add_steps, budget_remaining, charged_step_count, set_budget_remaining,
}

charged_step_count-append :
    (xs ys : List Step)
    → charged_step_count (xs ++ ys) ≡ charged_step_count xs + charged_step_count ys
unfolding charged_step_count
charged_step_count-append [] ys = omega arith
charged_step_count-append (x ∷ xs) ys = omega (arith, charged_step_count-append xs ys)

left_over : (m v c k : ℕ) → m - (m - v - c) - (c + k) ≡ min v (m - c) - k
left_over m v c k = omega arith

-- After the budget is set, and any steps follow, what remains is what was set, or what the limit of
-- steps leaves if that is less, less the steps that are charged; free steps cost nothing.
pub budget_remaining-set :
    (v : ℕ) (s t : DefaultState) (more : List Step)
    → set_budget_remaining (pos v) s ≡ some t
    → budget_remaining (add_steps more t)
      ≡ min v (s.max_steps - charged_step_count s.steps) - charged_step_count more
unfolding set_budget_remaining budget_remaining
budget_remaining-set v s t more h =
    let same = some-injective _ _ h in
    subst
      (λ x.
        budget_remaining (add_steps more x)
        ≡ min v (s.max_steps - charged_step_count s.steps) - charged_step_count more)
      same
      (ap (λ n. s.max_steps - (s.max_steps - v - charged_step_count s.steps) - n)
          (charged_step_count-append s.steps more)
        ∙ left_over s.max_steps v (charged_step_count s.steps) (charged_step_count more))
