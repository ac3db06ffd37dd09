-- ===== src/Loop/Gating.antt =====
-- The loop over the gates of one call.
use looplet.Prelude.{
  All, Bool-cases, List, Option, Option-cases, String, [], false, inl, inr, none, some, ℕ, ◌∙◌, ◌∷◌,
  ◌≡◌,
}
use looplet.Value.{Fields}
use looplet.Types.{ToolCall}
use looplet.HookDecision.{HookDecision, is_text}
use looplet.Loop.{Hook, Recorder}
use looplet.Loop.Intercept.{
  Pass, apply_decision, apply_optional, ask_gate, gate_then, run_gates, unless_denied, with_args,
}
use looplet.Loop.Guards.{
  After, AfterStep, IsSound, Keeps, Stays, ask_gate-Stays, denied_result-IsDenial,
}

-- where the gates leave a call: in `P`, and with a denial if one was given
abbrev pub Settled : {W : Type 0} → (ToolCall → Type 0) → Pass W → Type 0
Settled P q = P q.call × IsSound q.denied q.intercepted

module _ {W : Type 0} (recorder : Recorder W) (summarize : Fields → String) (P : ToolCall → Type 0)
    (args_free : (call : ToolCall) (args : Fields) → P call → P (record call { args = args })) where
  with_args_keeps : (o : Option Fields) (call : ToolCall) → P call → P (with_args o call)
  with_args_keeps none call h = h
  with_args_keeps (some args) call h = args_free call args h

  -- After a decision the call is still in `P`, and a denial has put its result.
  apply_decision_keeps :
      (d : HookDecision) (p : Pass W)
      → P p.call
      → p.denied ≡ false
      → let q = apply_decision recorder summarize d p in P q.call × IsSound q.denied q.intercepted
  unfolding apply_decision
  apply_decision_keeps d p h n =
      let kept = with_args_keeps d.updated_args p.call h in
      elim (Bool-cases (is_text d.permission "deny")) [
        | inl e ↦ rw e (kept, denied_result-IsDenial summarize _ _)
        | inr e ↦ elim (Option-cases d.updated_result) [
          | inl o ↦ rw (e, o, n) (kept, tt)
          | inr (r, o) ↦ rw (e, o, n) (kept, tt)
        ]
      ]

  apply_optional_keeps :
      (o : Option HookDecision) (p : Pass W)
      → P p.call
      → p.denied ≡ false
      → let q = apply_optional recorder summarize o p in P q.call × IsSound q.denied q.intercepted
  unfolding apply_optional
  apply_optional_keeps none p h n = (h, rw n tt)
  apply_optional_keeps (some d) p h n = apply_decision_keeps d p h n

  unless_denied-Settled :
      (next : Pass W → Option (Pass W))
      → ((q : Pass W) → P q.call → q.denied ≡ false → After (Settled P) (next q))
      → (q : Pass W) → Settled P q
      → After (Settled P) (unless_denied recorder summarize next q)
  unfolding unless_denied
  unless_denied-Settled next go q h = elim (Bool-cases q.denied) [
    | inl e ↦ rw (e, unless_denied) h
    | inr e ↦ rw (e, unless_denied) (go q h.0 e)
  ]

  gate_then-Settled :
      (next : Pass W → Option (Pass W)) (p : Pass W)
      → ((q : Pass W) → P q.call → q.denied ≡ false → After (Settled P) (next q))
      → p.denied ≡ false
      → (r : Option (Option HookDecision × Pass W)) → AfterStep (Stays P p) r
      → After (Settled P) (gate_then recorder summarize next r)
  unfolding gate_then
  gate_then-Settled next p go n none s = tt
  gate_then-Settled next p go n (some (o, q)) s =
      unless_denied-Settled next go _ (apply_optional_keeps o q s.0 (s.1 ∙ n))

  pub run_gates-Settled :
      (hooks rest : List (Hook W)) (step : ℕ) (p : Pass W)
      → All (Keeps P) rest
      → P p.call
      → p.denied ≡ false
      → After (Settled P) (run_gates recorder summarize hooks rest step p)
  unfolding run_gates
  run_gates-Settled hooks [] step p k h n = (h, rw n tt)
  run_gates-Settled hooks (hook ∷ rest) step p k h n =
      gate_then-Settled (run_gates recorder summarize hooks rest step) p
        (λ q hq nq. run_gates-Settled hooks rest step q k.1 hq nq) n
        (ask_gate recorder summarize hooks hook step p)
        (ask_gate-Stays recorder summarize P hooks hook step p k.0 h)
