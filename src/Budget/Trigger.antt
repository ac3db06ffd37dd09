-- ===== src/Budget/Trigger.antt =====
-- When a threshold hook asks for a compaction.
use looplet.Prelude.{
  Bool-cases, [], ap, arith, if◌then◌else◌, inl, inr, leb, refl, some, sym, ℕ, ◌++◌, ◌<◌, ◌∙◌, ◌∷◌,
  ◌≡◌,
}
use mathlib.Core.List.{append-nil}
use looplet.Budget.{
  ContextBudget, FireTier, ThresholdCompactHook, blocking_at, classify, context_budget, fire_error,
  fire_warning, fires, should_compact,
}

-- the threshold of a hook
abbrev pub threshold : FireTier → ContextBudget → ℕ
threshold fire_warning b = b.warning_at
threshold fire_error b = b.error_at

ordered :
    (b c : ContextBudget)
    → context_budget b ≡ some c
    → (b.warning_at < b.error_at) × (b.error_at < blocking_at b)
unfolding context_budget
ordered b c h = ground arith

classify-fires :
    (b : ContextBudget) (fire_tier : FireTier) (estimate : ℕ)
    → b.warning_at < b.error_at
    → b.error_at < blocking_at b
    → fires fire_tier (classify b estimate) ≡ leb (threshold fire_tier b) estimate
unfolding classify
classify-fires b fire_warning estimate h k = ground arith
classify-fires b fire_error estimate h k = ground arith

-- With a budget that passed its checks, the hook asks for a compaction exactly when the estimate
-- reaches the threshold that it is set to, whatever the tier above it, and it notes the steps at which
-- it asked, in order, and no others.
pub should_compact-threshold :
    (b c : ContextBudget) (hook : ThresholdCompactHook) (estimate step_num : ℕ)
    → context_budget b ≡ some c
    → hook.budget ≡ b
    → ((should_compact estimate step_num hook).0 ≡ leb (threshold hook.fire_tier b) estimate)
      × ((should_compact estimate step_num hook).1.fired_at
          ≡ hook.fired_at
            ++ (if leb (threshold hook.fire_tier b) estimate then step_num ∷ [] else []))
unfolding should_compact
should_compact-threshold b c hook estimate step_num valid same =
    let (first, second) = ordered b c valid in
    let fired =
      ap (λ x. fires hook.fire_tier (classify x estimate)) same
      ∙ classify-fires b hook.fire_tier estimate first second in
    elim (Bool-cases (leb (threshold hook.fire_tier b) estimate)) [
      | inl e ↦ rw (should_compact, fired, e) (refl, refl)
      | inr e ↦ rw (should_compact, fired, e) (refl, sym (append-nil hook.fired_at))
    ]
