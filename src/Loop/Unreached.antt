-- ===== src/Loop/Unreached.antt =====
-- Whether the calls of a turn reach a tool.
use looplet.Prelude.{
  All, Bool, List, Option, Option-cases, String, [], ap, false, inl, inr, length, none, refl, some,
  suc, true, ℕ, ◌+◌, ◌∙◌, ◌∷◌, ◌≡◌,
}
use looplet.Value.{Fields}
use looplet.Types.{ToolCall, ToolResult}
use looplet.Loop.{Hook, Recorder}
use looplet.Loop.Intercept.{intercept_tool_calls}
use looplet.Loop.Guards.{HasGuard, Keeps}
use looplet.Loop.Denial.{AllRefused, IsRefusedCall, intercept_tool_calls-AllRefused}
use looplet.Loop.Turn.{
  Tools, TurnEnd, TurnHost, dispatch_group, dispatch_items, finished, groups_of, raised, run_group,
  run_groups, run_turn, stopped, then_run,
}

refused-dispatch_items :
    (index : ℕ) (calls : List (ToolCall × Option ToolResult))
    → All IsRefusedCall calls
    → dispatch_items index calls ≡ []
refused-dispatch_items index [] h = refl
refused-dispatch_items index ((call, none) ∷ calls) ((r, e, d), h) = elim (none_refused r e) [ ]
  where
    none_refused : (r : ToolResult) → none ≡ some r → ⊥
    none_refused r e = cc
refused-dispatch_items index ((call, some r) ∷ calls) (d, h) =
    refused-dispatch_items (suc index) calls h

then_run-same :
    {W : Type 0} (x : TurnEnd W) (next other : W → TurnEnd W)
    → ((w : W) → next w ≡ other w)
    → then_run x next ≡ then_run x other
then_run-same raised next other h = refl
then_run-same (stopped w) next other h = refl
then_run-same (finished w) next other h = h w

groups_of-All :
    (P : ToolCall → Type 0) (concurrent : Bool) (calls : List ToolCall)
    → All P calls
    → All (All P) (groups_of concurrent calls)
groups_of-All P true calls h = (h, tt)
groups_of-All P false [] h = tt
groups_of-All P false (call ∷ calls) (hc, h) = ((hc, tt), groups_of-All P false calls h)

module _ {W C : Type 0} (recorder : Recorder W) (summarize : Fields → String)
    (hooks : List (Hook W)) (host_of : TurnHost W C) (tools others : Tools W C)
    (concurrent : Bool) where
  run_group-unreached :
      (group : List ToolCall) (step : ℕ) (w : W)
      → AllRefused recorder summarize group
          (intercept_tool_calls recorder summarize hooks group step w [])
      → run_group recorder summarize hooks host_of tools concurrent group step w
        ≡ run_group recorder summarize hooks host_of others concurrent group step w
  unfolding run_group dispatch_group
  run_group-unreached group step w h =
      elim (Option-cases (intercept_tool_calls recorder summarize hooks group step w [])) [
        | inl e ↦ rw (run_group, e)
        | inr (r, e) ↦
            let refused : AllRefused recorder summarize group (some r) = rw e at h in
            rw (run_group, e, refused-dispatch_items 0 r.calls refused.0)
      ]

  run_groups-unreached :
      (groups : List (List ToolCall)) (step : ℕ) (w : W)
      → All
          (λ group.
            (step : ℕ) (w : W)
            → AllRefused recorder summarize group
                (intercept_tool_calls recorder summarize hooks group step w []))
          groups
      → run_groups recorder summarize hooks host_of tools concurrent groups step w
        ≡ run_groups recorder summarize hooks host_of others concurrent groups step w
  unfolding run_groups
  run_groups-unreached [] step w h = refl
  run_groups-unreached (group ∷ groups) step w (h, hs) =
      ap
        (λ x. then_run x (λ w'.
          run_groups recorder summarize hooks host_of tools concurrent groups (step + length group)
            w'))
        (run_group-unreached group step w (h step w))
      ∙ then_run-same _ _ _ (λ w'. run_groups-unreached groups (step + length group) w' hs)

  refused_groups :
      (P : ToolCall → Type 0)
      → ((call : ToolCall) (args : Fields) → P call → P (record call { args = args }))
      → All (Keeps P) hooks
      → HasGuard P hooks
      → (groups : List (List ToolCall)) → All (All P) groups
      → All
          (λ group.
            (step : ℕ) (w : W)
            → AllRefused recorder summarize group
                (intercept_tool_calls recorder summarize hooks group step w []))
          groups
  refused_groups P args_free k g [] h = tt
  refused_groups P args_free k g (group ∷ groups) (hg, h) = (
    λ step w.
        intercept_tool_calls-AllRefused recorder summarize P args_free hooks group step w [] k g hg,
    refused_groups P args_free k g groups h,
  )

  -- A refused call reaches no tool: when one hook's permission check refuses every call in `P`, a turn
  -- of such calls, in one batch or one by one, ends the same whatever the tools would do with a call.
  -- The hooks keep each call in `P`, and `P` does not read the arguments.
  pub run_turn-unreached :
      (P : ToolCall → Type 0)
      → ((call : ToolCall) (args : Fields) → P call → P (record call { args = args }))
      → All (Keeps P) hooks
      → HasGuard P hooks
      → (calls : List ToolCall) (step : ℕ) (w : W) → All P calls
      → run_turn recorder summarize hooks host_of tools concurrent calls step w
        ≡ run_turn recorder summarize hooks host_of others concurrent calls step w
  unfolding run_turn
  run_turn-unreached P args_free k g calls step w h =
      run_groups-unreached (groups_of concurrent calls) step w (
        refused_groups P args_free k g (groups_of concurrent calls)
          (groups_of-All P concurrent calls h))
