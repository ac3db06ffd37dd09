-- ===== src/Lifecycle/Tests.antt =====
-- The lifecycle theorems at concrete runs.
use looplet.Prelude.{List, [], false, none, refl, some, ◌∷◌, ◌≡◌}
use looplet.Lifecycle.{
  LoopContext, completed, created, failed, is_terminal_status, llm, prompting, running,
  set_run_lifecycle, starting, terminal, valid_transition,
}
use looplet.Lifecycle.Invariant.{IsCoherent}
use looplet.Lifecycle.Trace.{IsLater, Request, apply_request, run_requests, run_requests-IsLater}

abbrev fresh : LoopContext
fresh = record {
  status = created;
  phase = starting;
  termination_reason = none;
  state = record {
    run_status = none;
    run_phase = none;
    termination_reason = none;
    accepted_terminal_tool = none;
    stop_reason = none;
    llm_calls = 0;
    metadata = some [];
  };
  deadline_at = some 100;
  cancel_token = some false;
}

abbrev live : LoopContext
live = record fresh { status = running; phase = llm }

-- prompting, an illegal jump back to starting, the end, and a late change of mind
abbrev script : List Request
script =
    record { status = some running; phase = some prompting; reason = none; tool = none }
    ∷ record { status = none; phase = some starting; reason = none; tool = none }
    ∷ record {
      status = some completed;
      phase = some terminal;
      reason = some "done";
      tool = some "done";
    }
    ∷ record { status = some failed; phase = none; reason = some "error"; tool = none }
    ∷ []

run_script :
    ((run_requests fresh script).status ≡ completed)
    × ((run_requests fresh script).state.termination_reason ≡ some "done")
unfolding run_requests apply_request set_run_lifecycle valid_transition
run_script = (refl, refl)

fresh-IsCoherent : IsCoherent fresh
unfolding is_terminal_status
fresh-IsCoherent = refl

live-IsCoherent : IsCoherent live
unfolding is_terminal_status
live-IsCoherent = refl

run_requests-IsLater_example : IsLater fresh (run_requests fresh script)
run_requests-IsLater_example = run_requests-IsLater script fresh fresh-IsCoherent
