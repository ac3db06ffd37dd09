-- ===== src/Loop/Turn.antt =====
-- The tool calls of one turn: `_dispatch_regular_calls` of src/looplet/loop.py, and the order in which
-- the loop consumes its results. What the loop does with a result (hooks, the step, the history, the
-- checkpoint, and whether the turn ends there) is a parameter.
use looplet.Prelude.{
  Bool, List, Option, String, [], false, if◌then◌else◌, length, map, none, some, suc, true, ℕ, ◌+◌,
  ◌-◌, ◌∷◌,
}
use looplet.Value.{Fields}
use looplet.Types.{ToolCall, ToolResult}
use looplet.Loop.{Hook, Recorder}
use looplet.Loop.Intercept.{intercept_tool_calls}

pub record TurnHost (W C : Type 0) : Type 0 where
  pub build_tool_ctx : ToolCall → ℕ → W → Option C
  pub save_pending_dispatch : List ToolCall → List ToolCall → ℕ → W → W
  pub add_context : List String → W → W
  pub settle : ℕ → ToolCall → ToolResult → Bool → W → Bool × W

-- what the registry of tools does with calls; `none` is an exception
pub record Tools (W C : Type 0) : Type 0 where
  pub dispatch : ToolCall → Option C → W → ToolResult × W
  pub dispatch_batch : List ToolCall → List (Option C) → W → Option (List ToolResult × W)

-- how a turn ends: an exception, a stop after a step, or with all its calls consumed
pub data TurnEnd (W : Type 0) : Type 0 where
  raised : TurnEnd W
  stopped : W → TurnEnd W
  finished : W → TurnEnd W

-- what follows a group: nothing after an exception or a stop
abbrev pub then_run : {W : Type 0} → TurnEnd W → (W → TurnEnd W) → TurnEnd W
then_run raised next = raised
then_run (stopped w) next = stopped w
then_run (finished w) next = next w

-- the calls without an intercepted result, with their places
abbrev pub dispatch_items : ℕ → List (ToolCall × Option ToolResult) → List (ℕ × ToolCall)
dispatch_items index [] = []
dispatch_items index ((call, none) ∷ calls) = (index, call) ∷ dispatch_items (suc index) calls
dispatch_items index ((call, some r) ∷ calls) = dispatch_items (suc index) calls

-- all calls in one group, or each in a group of its own
abbrev pub groups_of : Bool → List ToolCall → List (List ToolCall)
groups_of true calls = calls ∷ []
groups_of false calls = map (λ call. call ∷ []) calls

module _ {W C : Type 0} (host_of : TurnHost W C) where
  -- each call with its intercepted result, or the next of the dispatched ones
  unfoldable pub consume : ℕ → List (ToolCall × Option ToolResult) → List ToolResult → W → TurnEnd W
  consume step [] results w = finished w
  consume step ((call, some result) ∷ calls) results w =
      let (ends, w') = host_of.settle step call result true w in
      let rest = consume (suc step) calls results w' in if ends then stopped w' else rest
  consume step ((call, none) ∷ calls) [] w = raised
  consume step ((call, none) ∷ calls) (result ∷ results) w =
      let (ends, w') = host_of.settle step call result false w in
      let rest = consume (suc step) calls results w' in if ends then stopped w' else rest

module _ {W C : Type 0} (recorder : Recorder W) (summarize : Fields → String)
    (hooks : List (Hook W)) (host_of : TurnHost W C) (tools : Tools W C) (concurrent : Bool) where
  -- the results of the calls that are dispatched
  unfoldable pub dispatch_group :
      List ToolCall → List (ℕ × ToolCall) → ℕ → W → Option (List ToolResult × W)
  dispatch_group group [] step w = some ([], w)
  dispatch_group group ((index, call) ∷ items) step w =
      let calls = call ∷ map (λ item. item.1) items in
      let saved = host_of.save_pending_dispatch group calls (step + length group - 1) w in
      let ctx = host_of.build_tool_ctx call (step + index) saved in
      let later = map (λ item. host_of.build_tool_ctx item.1 (step + item.0) saved) items in
      if concurrent
      then tools.dispatch_batch calls (ctx ∷ later) saved
      else (let (result, w') = tools.dispatch call ctx saved in some (result ∷ [], w'))

  -- one group, its first call at `step`
  unfoldable pub run_group : List ToolCall → ℕ → W → TurnEnd W
  run_group group step w = elim (intercept_tool_calls recorder summarize hooks group step w []) [
    | none ↦ raised
    | some r ↦
        (let w' = host_of.add_context r.extra_context r.world in
          elim (dispatch_group (map (λ c. c.0) r.calls) (dispatch_items 0 r.calls) step w') [
            | none ↦ raised
            | some (results, w'') ↦ consume host_of step r.calls results w''
          ])
  ]

  unfoldable pub run_groups : List (List ToolCall) → ℕ → W → TurnEnd W
  run_groups [] step w = finished w
  run_groups (group ∷ groups) step w =
      then_run (run_group group step w) (λ w'. run_groups groups (step + length group) w')

  -- the regular calls of a turn
  unfoldable pub run_turn : List ToolCall → ℕ → W → TurnEnd W
  run_turn calls step w = run_groups (groups_of concurrent calls) step w
