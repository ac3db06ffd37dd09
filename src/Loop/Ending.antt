-- ===== src/Loop/Ending.antt =====
-- When a run ends after a step.
use looplet.Prelude.{
  List, Option, Option-cases, String, [], false, inl, inr, is_some, none, refl, some, true, ℕ, ◌∷◌,
  ◌≡◌, ◌⊎◌,
}
use looplet.HookDecision.{is_stop}
use looplet.HookDecision.Normalize.{Normalized-cases, normalize_hook_return}
use looplet.Loop.{Hook, Ran, Recorder}
use looplet.Loop.Stop.{
  after_should_stop, ask_should_stop, first_stop, post_step_stop_reason, stop_reason_of_hooks,
}
use looplet.Loop.Stopping.{IsStopped, Stops, Unraised}

-- One of the hooks stops the run whenever its `should_stop` is asked.
pub record StopsAfterStep {W : Type 0} (hook : Hook W) : Type 0 where
  pub method : W → ℕ → ℕ → Ran W Unit
  pub has_method : hook.should_stop ≡ some method
  pub always :
      (w : W) (step new_entities : ℕ) → Stops "should_stop" (method w step new_entities).answer

abbrev pub HasStopper : {W : Type 0} → List (Hook W) → Type 0
HasStopper [] = ⊥
HasStopper (hook ∷ hooks) = StopsAfterStep hook ⊎ HasStopper hooks

module _ {W : Type 0} (recorder : Recorder W) where
  after_should_stop-Stops :
      (hooks : List (Hook W)) (name : String) (step : ℕ) (ran : Ran W Unit)
      → Stops "should_stop" ran.answer
      → Unraised
          (λ (o : W × Option String). is_some o.1 ≡ true)
          (after_should_stop recorder hooks name step ran)
  unfolding after_should_stop
  after_should_stop-Stops hooks name step ran h = elim (Option-cases ran.answer) [
    | inl e ↦ rw (e, after_should_stop) tt
    | inr (v, e) ↦
        let stopped : IsStopped (normalize_hook_return v "should_stop") = rw e at h in
        elim (Normalized-cases (normalize_hook_return v "should_stop")) [
          | inl n ↦ rw (e, after_should_stop, n) tt
          | inr (inl n) ↦ elim (rw n at stopped) [ ]
          | inr (inr (d, n)) ↦
              let stopping : is_stop d ≡ true = rw n at stopped in
              rw (e, after_should_stop, n, stopping)
        ]
  ]

  first_stop_lem :
      (R : W × Option String → Type 0) (next : W → Option (W × Option String))
      (o : Option (W × Option String))
      → ((w : W) (s : String) → o ≡ some (w, some s) → R (w, some s))
      → ((w : W) → o ≡ some (w, none) → Unraised R (next w))
      → Unraised R (first_stop recorder next o)
  unfolding first_stop
  first_stop_lem R next none f g = tt
  first_stop_lem R next (some (w, some s)) f g = f w s refl
  first_stop_lem R next (some (w, none)) f g = g w refl

stop_reason_of_hooks-stops :
    {W : Type 0}
    → (recorder : Recorder W) (hooks rest : List (Hook W)) (step new_entities : ℕ) (w : W)
    → HasStopper rest
    → Unraised
        (λ (o : W × Option String). is_some o.1 ≡ true)
        (stop_reason_of_hooks recorder hooks rest step new_entities w)
unfolding stop_reason_of_hooks ask_should_stop
stop_reason_of_hooks-stops recorder hooks [] step new_entities w h = elim h [ ]
stop_reason_of_hooks-stops {W = W} recorder hooks (hook ∷ rest) step new_entities w (inl s) =
    let stopped : Unraised (λ (o : W × Option String). is_some o.1 ≡ true)
        (ask_should_stop recorder hooks hook step new_entities w) =
      rw s.has_method
        (after_should_stop-Stops recorder hooks hook.name step _ (s.always w step new_entities)) in
    first_stop_lem recorder (λ o. is_some o.1 ≡ true)
      (stop_reason_of_hooks recorder hooks rest step new_entities)
      (ask_should_stop recorder hooks hook step new_entities w) (λ v r e. refl)
      (λ v e. let lost : false ≡ true = rw e at stopped in cc)
stop_reason_of_hooks-stops recorder hooks (hook ∷ rest) step new_entities w (inr s) =
    first_stop_lem recorder (λ o. is_some o.1 ≡ true)
      (stop_reason_of_hooks recorder hooks rest step new_entities)
      (ask_should_stop recorder hooks hook step new_entities w) (λ v r e. refl)
      (λ v e. stop_reason_of_hooks-stops recorder hooks rest step new_entities v s)

-- A run stops after a step if a reason was requested or if one of the hooks always stops it, unless
-- a hook raises: no earlier answer keeps the loop from asking the stopping hook.
pub post_step_stop_reason-stops :
    {W : Type 0}
    → (recorder : Recorder W) (hooks : List (Hook W)) (step new_entities : ℕ)
      (requested : Option String) (w : W)
    → (is_some requested ≡ true) ⊎ HasStopper hooks
    → Unraised
        (λ (o : W × Option String). is_some o.1 ≡ true)
        (post_step_stop_reason recorder hooks step new_entities requested w)
unfolding post_step_stop_reason
post_step_stop_reason-stops recorder hooks step new_entities (some r) w h = refl
post_step_stop_reason-stops recorder hooks step new_entities none w (inl h) = cc
post_step_stop_reason-stops recorder hooks step new_entities none w (inr h) =
    stop_reason_of_hooks-stops recorder hooks hooks step new_entities w h
