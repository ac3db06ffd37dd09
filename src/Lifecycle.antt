-- ===== src/Lifecycle.antt =====
-- The run lifecycle of src/looplet/types.py (`RunStatus`, `RunPhase`, `validate_run_transition`)
-- and its single writer in src/looplet/loop.py (`_set_run_lifecycle`, `_deadline_expired`,
-- `_mark_terminal_state`). A raised `InvalidRunTransition` is the error of `Update`.
pub mod Invariant
pub mod Trace
mod Tests
use looplet.Prelude.{
  Bool, Option, String, false, if◌then◌else◌, is_some, ltb, none, not, or_else, some, true, ℕ, ◌&&◌,
  ◌==◌, ◌||◌,
}
use mathlib.Core.Option
use looplet.Prelude.Dict.{Dict, insert}

pub data RunStatus : Type 0 where
  created running completed stopped failed cancelled : RunStatus

pub data RunPhase : Type 0 where
  starting prompting llm dispatching finalizing stopping terminal : RunPhase

-- `status.value`
unfoldable pub status_value : RunStatus → String
status_value created = "created"
status_value running = "running"
status_value completed = "completed"
status_value stopped = "stopped"
status_value failed = "failed"
status_value cancelled = "cancelled"

unfoldable pub phase_value : RunPhase → String
phase_value starting = "starting"
phase_value prompting = "prompting"
phase_value llm = "llm"
phase_value dispatching = "dispatching"
phase_value finalizing = "finalizing"
phase_value stopping = "stopping"
phase_value terminal = "terminal"

abbrev pub status_index : RunStatus → ℕ
status_index created = 0
status_index running = 1
status_index completed = 2
status_index stopped = 3
status_index failed = 4
status_index cancelled = 5

abbrev pub phase_index : RunPhase → ℕ
phase_index starting = 0
phase_index prompting = 1
phase_index llm = 2
phase_index dispatching = 3
phase_index finalizing = 4
phase_index stopping = 5
phase_index terminal = 6

-- `a == b` on the two enumerations
abbrev pub same_status : RunStatus → RunStatus → Bool
same_status a b = status_index a == status_index b

abbrev pub same_phase : RunPhase → RunPhase → Bool
same_phase a b = phase_index a == phase_index b

-- `s in _TERMINAL_RUN_STATUSES`
unfoldable pub is_terminal_status : RunStatus → Bool
is_terminal_status created = false
is_terminal_status running = false
is_terminal_status s = true

-- `t in _RUN_STATUS_TRANSITIONS[s]`
status_step : RunStatus → RunStatus → Bool
unfolding is_terminal_status
status_step created t = same_status t running
status_step running t = is_terminal_status t
status_step _ t = false

-- `q in _RUN_PHASE_TRANSITIONS[p]`
phase_step : RunPhase → RunPhase → Bool
phase_step starting q = same_phase q prompting || (same_phase q stopping || same_phase q terminal)
phase_step prompting q = same_phase q llm || (same_phase q stopping || same_phase q terminal)
phase_step llm prompting = true
phase_step llm dispatching = true
phase_step llm finalizing = true
phase_step llm stopping = true
phase_step llm terminal = true
phase_step llm q = false
phase_step dispatching prompting = true
phase_step dispatching finalizing = true
phase_step dispatching stopping = true
phase_step dispatching terminal = true
phase_step dispatching q = false
phase_step finalizing q = same_phase q prompting || (same_phase q stopping || same_phase q terminal)
phase_step stopping q = same_phase q terminal
phase_step terminal q = false

-- `validate_run_transition` with the defaults filled in: true when it does not raise
unfoldable pub valid_transition : RunStatus → RunPhase → RunStatus → RunPhase → Bool
unfolding status_step phase_step
valid_transition s p t q =
    if not (same_status t s) && not (status_step s t)
    then false
    else if not (same_phase q p) && not (phase_step p q)
    then false
    else if is_terminal_status t && not (same_phase q terminal)
    then false
    else not (same_phase q terminal && not (is_terminal_status t))

-- The attributes of the caller's state that the loop keeps in step with the run. `metadata` holds
-- the texts that lifecycle updates write; `none` is a state without a metadata dict.
pub record StateView : Type 0 where
  pub run_status : Option String
  pub run_phase : Option String
  pub termination_reason : Option String
  pub accepted_terminal_tool : Option String
  pub stop_reason : Option String
  pub llm_calls : ℕ
  pub metadata : Option (Dict String)

pub record LoopContext : Type 0 where
  pub status : RunStatus
  pub phase : RunPhase
  pub termination_reason : Option String
  pub state : StateView
  -- `run_envelope.deadline_at`, and the cancel token, if there is one: true once cancelled
  pub deadline_at : Option ℕ
  pub cancel_token : Option Bool

pub data Update (A : Type 0) : Type 0 where
  ok : A → Update A
  invalid_run_transition : RunStatus → RunPhase → RunStatus → RunPhase → Update A

-- the entries that `metadata.update` writes
abbrev pub write_metadata : RunStatus → RunPhase → Option String → Dict String → Dict String
write_metadata s p reason m =
    let m' = insert "run_phase" (phase_value p) (insert "run_status" (status_value s) m) in
    elim reason [ none ↦ m' | some r ↦ insert "termination_reason" r m' ]

mirror : RunStatus → RunPhase → Option String → Option String → StateView → StateView
mirror s p reason tool v = record {
  run_status = some (status_value s);
  run_phase = some (phase_value p);
  termination_reason = reason;
  accepted_terminal_tool =
      if same_phase p starting || is_some tool then tool else v.accepted_terminal_tool;
  stop_reason = v.stop_reason;
  llm_calls = if same_phase p starting then 0 else v.llm_calls;
  metadata = elim v.metadata [ none ↦ none | some m ↦ some (write_metadata s p reason m) ];
}

-- `_set_run_lifecycle`: `none` is an argument that was left out. The context is the one after the
-- call, also where the call raised.
unfoldable pub set_run_lifecycle :
    LoopContext
    → Option RunStatus
    → Option RunPhase
    → Option String
    → Option String
    → Update Unit × LoopContext
unfolding mirror
set_run_lifecycle c status phase reason tool =
    let s = or_else status c.status in
    let p = or_else phase c.phase in
    let r : Option String = elim reason [ none ↦ c.termination_reason | some x ↦ some x ] in
    if valid_transition c.status c.phase s p
    then (
      ok tt,
      record c { status = s; phase = p; termination_reason = r; state = mirror s p r tool c.state },
    )
    else (invalid_run_transition c.status c.phase s p, c)

answer_true : Update Unit × LoopContext → Update Bool × LoopContext
answer_true (ok _, c) = (ok true, c)
answer_true (invalid_run_transition s p t q, c) = (invalid_run_transition s p t q, c)

-- `_deadline_expired` at time `now`
unfoldable pub deadline_expired : ℕ → LoopContext → Update Bool × LoopContext
unfolding answer_true
deadline_expired now c = elim c.deadline_at [
  | none ↦ (ok false, c)
  | some deadline ↦
      if ltb now deadline
      then (ok false, c)
      else answer_true (
          set_run_lifecycle (record c { cancel_token = Option.map (λ _. true) c.cancel_token })
            (some running) (some stopping) (some "deadline_exceeded") none)
]

-- `_mark_terminal_state`: the caller's view of a run that ended by an error or by an explicit close
unfoldable pub mark_terminal_state : String → String → StateView → StateView
mark_terminal_state status reason v = record v {
  run_status = some status;
  run_phase = some "terminal";
  termination_reason = some reason;
  stop_reason = some reason;
  metadata = elim v.metadata [
    | none ↦ none
    | some m ↦ some (
        insert "termination_reason" reason
          (insert "run_phase" "terminal" (insert "run_status" status m)))
  ];
}
