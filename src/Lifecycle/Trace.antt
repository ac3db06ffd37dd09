-- ===== src/Lifecycle/Trace.antt =====
-- Whole runs: any sequence of lifecycle updates, in which a refused update raises to the caller and
-- leaves the context as it was.
use looplet.Prelude.{List, Option, String, [], arith, refl, true, ◌∙◌, ◌∷◌, ◌≡◌, ◌≤◌}
use native.Mathlib.Nat.{le_trans}
use looplet.Lifecycle.{LoopContext, RunPhase, RunStatus, is_terminal_status, set_run_lifecycle}
use looplet.Lifecycle.Invariant.{
  IsCoherent, set_run_lifecycle-IsCoherent, set_run_lifecycle_forward, set_run_lifecycle_frozen,
  stage,
}

pub record Request : Type 0 where
  pub status : Option RunStatus
  pub phase : Option RunPhase
  pub reason : Option String
  pub tool : Option String

unfoldable pub apply_request : LoopContext → Request → LoopContext
apply_request c r = (set_run_lifecycle c r.status r.phase r.reason r.tool).1

unfoldable pub run_requests : LoopContext → List Request → LoopContext
run_requests c [] = c
run_requests c (r ∷ rs) = run_requests (apply_request c r) rs

pub record IsLater (c d : LoopContext) : Type 0 where
  pub forward : stage c.status ≤ stage d.status
  pub coherent : IsCoherent d
  pub frozen : is_terminal_status c.status ≡ true → (d.status ≡ c.status) × (d.phase ≡ c.phase)

apply_request-IsLater :
    (c : LoopContext) (r : Request) → IsCoherent c → IsLater c (apply_request c r)
unfolding apply_request
apply_request-IsLater c r h = record {
  forward = set_run_lifecycle_forward c r.status r.phase r.reason r.tool;
  coherent = set_run_lifecycle-IsCoherent c r.status r.phase r.reason r.tool h;
  frozen = set_run_lifecycle_frozen c r.status r.phase r.reason r.tool h;
}

-- From a context whose phase is terminal exactly when its status is, over any sequence of updates,
-- the status moves only forward, the phase is still terminal exactly when the status is, and a run
-- that has ended keeps the status and the phase that it ended with.
pub run_requests-IsLater :
    (rs : List Request) (c : LoopContext) → IsCoherent c → IsLater c (run_requests c rs)
unfolding run_requests
run_requests-IsLater [] c h = record {
  forward = omega arith;
  coherent = h;
  frozen = λ t. (refl, refl);
}
run_requests-IsLater (r ∷ rs) c h =
    let a = apply_request-IsLater c r h in
    let b = run_requests-IsLater rs (apply_request c r) a.coherent in
    record {
      forward = le_trans a.forward b.forward;
      coherent = b.coherent;
      frozen = λ t. let (s, p) = a.frozen t in let (s', p') = b.frozen (rw s t) in (s' ∙ s, p' ∙ p);
    }
