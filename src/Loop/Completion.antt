-- ===== src/Loop/Completion.antt =====
-- When a terminal call completes the run.
use looplet.Prelude.{
  Bool-cases, List, Option, Option-cases, String, [], false, inl, inr, is_some, none, refl, some,
  subst, true, ℕ, ◌∷◌, ◌≡◌, ◌⊎◌,
}
use looplet.Prelude.Dict.{lookup}
use looplet.Types.{Step, ToolCall, ToolResult}
use looplet.Value.{Fields}
use looplet.Lifecycle.{
  LoopContext, Update, completed, finalizing, invalid_run_transition, ok, set_run_lifecycle,
  terminal, valid_transition,
}
use looplet.Validation.{OutputSchema, validate_args}
use looplet.Validation.Typed.{values_of}
use looplet.HookDecision.{HookDecision, is_block}
use looplet.HookDecision.Normalize.{HookReturn}
use looplet.Loop.{Hook, Ran, Recorder}
use looplet.Loop.PostDispatch.{PostDispatch}
use looplet.Loop.Terminal.{
  Gate, TerminalEnd, TerminalHost, accepted, after_check_done, after_hooks, ask_gates, complete,
  completion_gate_warning, decide_terminal, end_by, failed_with, gate_decision, hooks_of, rejected,
  rejected_terminal_step, run_accepted, run_gated, run_terminal, schema_warning,
}

-- what a gate answered amounts to a rejection; a raise is one too
abbrev pub IsRejection : String → Option HookReturn → Type 0
IsRejection name answer =
    (d : HookDecision) × (gate_decision name answer ≡ some d) × (is_block d ≡ true)

-- The gate rejects every terminal call, by a block, by an answer that is no decision, or by raising.
pub record RejectsDone {W : Type 0} (gate : Gate W) : Type 0 where
  pub check : W → ToolCall → ℕ → Ran W ToolCall
  pub has_check : gate.check_done ≡ some check
  pub always :
      (w : W) (call : ToolCall) (step : ℕ) → IsRejection gate.hook.name (check w call step).answer

abbrev pub HasRejecter : {W : Type 0} → List (Gate W) → Type 0
HasRejecter [] = ⊥
HasRejecter (gate ∷ gates) = RejectsDone gate ⊎ HasRejecter gates

abbrev pub IsRejected : {W : Type 0} → TerminalEnd W → Type 0
IsRejected failed_with = Unit {0}
IsRejected (rejected step c w) = is_some step.tool_result.error ≡ true
IsRejected (accepted step c w) = ⊥

module _ {W : Type 0} (recorder : Recorder W) (hooks : List (Hook W)) where
  ask_gates-rejected :
      (gates : List (Gate W)) (step : ℕ) (w : W) (call : ToolCall)
      → HasRejecter gates
      → is_some (ask_gates recorder hooks gates step w call).warning ≡ true
  unfolding ask_gates after_check_done
  ask_gates-rejected [] step w call h = elim h [ ]
  ask_gates-rejected (gate ∷ gates) step w call (inl r) =
      let ran = r.check w call step in
      let (d, e, b) = r.always w call step in rw (r.has_check, e, after_check_done, b)
  ask_gates-rejected (gate ∷ gates) step w call (inr h) = elim (Option-cases gate.check_done) [
    | inl e ↦ rw e (ask_gates-rejected gates step w call h)
    | inr (check, e) ↦
        let ran = check w call step in
        elim (Option-cases (gate_decision gate.hook.name ran.answer)) [
          | inl n ↦ rw (e, n) (ask_gates-rejected gates step ran.world ran.handed h)
          | inr (d, n) ↦ elim (Bool-cases (is_block d)) [
            | inl b ↦ rw (e, n, after_check_done, b)
            | inr b ↦ rw (e, n, after_check_done, b) (ask_gates-rejected gates step _ ran.handed h)
          ]
        ]
  ]

module _ {W C : Type 0} (recorder : Recorder W) (gates : List (Gate W))
    (host_of : TerminalHost W C) where
  -- the same host, whose tools do something else
  abbrev pub with_dispatch : (ToolCall → C → W → ToolResult × W) → TerminalHost W C
  with_dispatch other = record host_of { dispatch = other }

  run_gated-IsRejected :
      (other : ToolCall → C → W → ToolResult × W) (call : ToolCall) (ignored : List ToolCall)
      (step : ℕ) (u : Update Unit × LoopContext) (w : W)
      → HasRejecter gates
      → IsRejected (run_gated recorder gates host_of call ignored step u w)
        × (run_gated recorder gates (with_dispatch other) call ignored step u w
            ≡ run_gated recorder gates host_of call ignored step u w)
  unfolding completion_gate_warning rejected_terminal_step
  run_gated-IsRejected other call ignored step (invalid_run_transition s p t q, c) w h = (tt, refl)
  run_gated-IsRejected other call ignored step (ok _, c) w h =
      let g = ask_gates recorder (hooks_of recorder gates host_of) gates step w call in
      let r = ask_gates-rejected recorder (hooks_of recorder gates host_of) gates step w call h in
      elim (Option-cases g.warning) [
        | inl e ↦ let lost : false ≡ true = rw e at r in absurd (cc)
        | inr (warning, e) ↦ rw e (refl, refl)
      ]

  -- A quality gate that rejects every terminal call, by a block, by an answer that is no decision or by
  -- raising, keeps the run from completing: the call ends in a rejected step with an error, or in an
  -- exception of the lifecycle, whatever the other gates say, and the tool is never run: the end is the
  -- same whatever the tool would do.
  pub run_terminal-IsRejected :
      (other : ToolCall → C → W → ToolResult × W) (call : ToolCall) (ignored : List ToolCall)
      (step : ℕ) (c : LoopContext) (w : W)
      → HasRejecter gates
      → IsRejected (run_terminal recorder gates host_of call ignored step c w)
        × (run_terminal recorder gates (with_dispatch other) call ignored step c w
            ≡ run_terminal recorder gates host_of call ignored step c w)
  unfolding run_terminal
  run_terminal-IsRejected other call ignored step c w h =
      run_gated-IsRejected other call ignored step
        (set_run_lifecycle c none (some finalizing) none none) w h

  -- what an accepted terminal call shows
  abbrev pub IsDone : Step → LoopContext → Type 0
  IsDone step c =
      (step.tool_result.error ≡ none)
      × (c.status ≡ completed)
      × (c.phase ≡ terminal)
      × (c.termination_reason ≡ some "done")

  abbrev pub WhenAccepted : TerminalEnd W → Type 0
  WhenAccepted failed_with = Unit {0}
  WhenAccepted (rejected step c w) = Unit {0}
  WhenAccepted (accepted step c w) = IsDone step c

  complete-IsDone :
      (s : Step) (c : LoopContext) (tool : String) (w : W)
      → s.tool_result.error ≡ none
      → WhenAccepted (
          complete host_of s
            (set_run_lifecycle c (some completed) (some terminal) (some "done") (some tool))
            w)
  unfolding set_run_lifecycle
  complete-IsDone s c tool w clean =
      elim (Bool-cases (valid_transition c.status c.phase completed terminal)) [
        | inl e ↦ rw (set_run_lifecycle, e) (clean, refl, refl, refl)
        | inr e ↦ rw (set_run_lifecycle, e) tt
      ]

  end_by-IsDone :
      (error : Option String) (step : ℕ) (p : PostDispatch W) (metadata : Fields) (c : LoopContext)
      → p.tool_result.error ≡ error
      → WhenAccepted (end_by host_of error step p metadata c)
  end_by-IsDone (some reason) step p metadata c e = tt
  end_by-IsDone none step p metadata c e = complete-IsDone _ c p.tool_call.tool p.world e

  after_hooks-IsDone :
      (o : Option (PostDispatch W)) (step : ℕ) (metadata : Fields) (c : LoopContext)
      → WhenAccepted (after_hooks host_of o step metadata c)
  after_hooks-IsDone none step metadata c = tt
  after_hooks-IsDone (some p) step metadata c =
      end_by-IsDone p.tool_result.error step p metadata c refl

  -- if the call was accepted, there was no warning, and the accepted call is done
  abbrev pub Accepts : Option String → TerminalEnd W → Type 0
  Accepts none e = WhenAccepted e
  Accepts (some warning) e = IsRejected e

  decide_terminal-Accepts :
      (warning : Option String) (call : ToolCall) (ignored : List ToolCall) (step : ℕ)
      (c : LoopContext) (w : W)
      → Accepts warning (decide_terminal recorder gates host_of warning call ignored step c w)
  unfolding run_accepted rejected_terminal_step
  decide_terminal-Accepts (some warning) call ignored step c w = refl
  decide_terminal-Accepts none call ignored step c w = after_hooks-IsDone _ step _ c

  -- the call meets the output schema of its tool, if there is one
  abbrev pub MeetsSchema : Option (Option OutputSchema) → ToolCall → Type 0
  MeetsSchema none call = Unit {0}
  MeetsSchema (some none) call = Unit {0}
  MeetsSchema (some (some schema)) call =
      (validate_args host_of.equal host_of.sorted schema (values_of call.args)).valid ≡ true

  schema_warning-MeetsSchema :
      (o : Option (Option OutputSchema)) (call : ToolCall)
      → schema_warning host_of o call ≡ none
      → MeetsSchema o call
  schema_warning-MeetsSchema none call h = tt
  schema_warning-MeetsSchema (some none) call h = tt
  schema_warning-MeetsSchema (some (some schema)) call h =
      elim (Bool-cases
        (validate_args host_of.equal host_of.sorted schema (values_of call.args)).valid) [
          | inl e ↦ e
          | inr e ↦ absurd (some-ne-none _ (rw e at h))
        ]
    where
      some-ne-none : (t : String) → ((some t ≡ none) → ⊥)
      some-ne-none t e = cc

  no_warning :
      (call : ToolCall) (o : Option String)
      → completion_gate_warning host_of call o ≡ none
      → (o ≡ none) × MeetsSchema (lookup call.tool host_of.outcomes) call
  unfolding completion_gate_warning
  no_warning call none h =
      (refl, schema_warning-MeetsSchema (lookup call.tool host_of.outcomes) call h)
  no_warning call (some warning) h = cc

  run_gated-accepted :
      (call : ToolCall) (ignored : List ToolCall) (step : ℕ) (u : Update Unit × LoopContext) (w : W)
      (s : Step) (c' : LoopContext) (w' : W)
      → run_gated recorder gates host_of call ignored step u w ≡ accepted s c' w'
      → let g = ask_gates recorder (hooks_of recorder gates host_of) gates step w call in
        (g.warning ≡ none)
        × MeetsSchema (lookup g.tool_call.tool host_of.outcomes) g.tool_call
        × IsDone s c'
  run_gated-accepted call ignored step (invalid_run_transition a p t q, c) w s c' w' h =
      absurd (failed-ne h)
    where
      failed-ne : ((◌≡◌ {A = TerminalEnd W} failed_with (accepted s c' w')) → ⊥)
      failed-ne e = cc
  run_gated-accepted call ignored step (ok _, c) w s c' w' h =
      let g = ask_gates recorder (hooks_of recorder gates host_of) gates step w call in
      let warning = completion_gate_warning host_of g.tool_call g.warning in
      let shown : Accepts warning (accepted s c' w') =
        subst (Accepts warning) h
          (decide_terminal-Accepts warning g.tool_call ignored step c g.world) in
      elim (Option-cases warning) [
        | inl e ↦
            let (no_gate, meets) = no_warning g.tool_call g.warning e in
            (no_gate, meets, subst (λ o. Accepts o (accepted s c' w')) e shown)
        | inr (t, e) ↦ absurd (subst (λ o. Accepts o (accepted s c' w')) e shown)
      ]

  -- If a terminal call is accepted, no quality gate rejected it, its arguments, as the gates left them,
  -- meet the output schema of its tool if there is one, the result after the hooks is no error, and the
  -- run is completed: its status is "completed", its phase "terminal" and its reason "done".
  pub run_terminal-accepted :
      (call : ToolCall) (ignored : List ToolCall) (step : ℕ) (c : LoopContext) (w : W) (s : Step)
      (c' : LoopContext) (w' : W)
      → run_terminal recorder gates host_of call ignored step c w ≡ accepted s c' w'
      → let g = ask_gates recorder (hooks_of recorder gates host_of) gates step w call in
        (g.warning ≡ none)
        × MeetsSchema (lookup g.tool_call.tool host_of.outcomes) g.tool_call
        × IsDone s c'
  unfolding run_terminal
  run_terminal-accepted call ignored step c w s c' w' h =
      run_gated-accepted call ignored step (set_run_lifecycle c none (some finalizing) none none) w
        s c' w' h
