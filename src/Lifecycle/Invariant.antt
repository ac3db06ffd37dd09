-- ===== src/Lifecycle/Invariant.antt =====
-- What one lifecycle update keeps, refuses and always allows.
use looplet.Prelude.{
  Bool-cases, Option, String, arith, false, inl, inr, ltb, ltb→lt, none, or_else, refl, some, sym,
  true, ℕ, ◌<◌, ◌≡◌, ◌≢◌, ◌≤◌, ◌⊎◌,
}
use looplet.Lifecycle.{
  LoopContext, RunPhase, RunStatus, cancelled, completed, created, deadline_expired, failed,
  is_terminal_status, ok, phase_value, running, same_phase, set_run_lifecycle, status_value,
  stopped, stopping, terminal, valid_transition,
}

-- The phase is `TERMINAL` exactly when the status is a terminal one.
abbrev pub IsCoherent : LoopContext → Type 0
IsCoherent c = is_terminal_status c.status ≡ same_phase c.phase terminal

-- The caller's state shows the status, the phase and the reason of the run.
pub record IsMirrored (c : LoopContext) : Type 0 where
  pub status_shown : c.state.run_status ≡ some (status_value c.status)
  pub phase_shown : c.state.run_phase ≡ some (phase_value c.phase)
  pub reason_shown : c.state.termination_reason ≡ c.termination_reason

valid_transition-IsCoherent :
    (s t : RunStatus) (p q : RunPhase)
    → valid_transition s p t q ≡ true
    → is_terminal_status t ≡ same_phase q terminal
unfolding valid_transition
valid_transition-IsCoherent s t p q h = ground arith

valid_transition_frozen :
    (s t : RunStatus) (p q : RunPhase)
    → is_terminal_status s ≡ true
    → same_phase p terminal ≡ true
    → valid_transition s p t q ≡ true
    → (t ≡ s) × (q ≡ p)
unfolding valid_transition
valid_transition_frozen s t p q hs hp h = ground arith

valid_transition_end :
    (t : RunStatus) (p : RunPhase)
    → is_terminal_status t ≡ true
    → same_phase p terminal ≡ false
    → valid_transition running p t terminal ≡ true
unfolding valid_transition
valid_transition_end t p ht hp = ground arith

-- An update, accepted or refused, keeps the phase terminal exactly when the status is.
pub set_run_lifecycle-IsCoherent :
    (c : LoopContext) (s : Option RunStatus) (p : Option RunPhase) (reason tool : Option String)
    → IsCoherent c
    → IsCoherent (set_run_lifecycle c s p reason tool).1
unfolding set_run_lifecycle
set_run_lifecycle-IsCoherent c s p reason tool h =
    ground
      (arith, valid_transition-IsCoherent c.status (or_else s c.status) c.phase (or_else p c.phase))

-- An accepted update leaves the caller's state showing the run's status, phase and reason; a
-- refused one has written nothing.
pub set_run_lifecycle-IsMirrored :
    (c : LoopContext) (s : Option RunStatus) (p : Option RunPhase) (reason tool : Option String)
    → ((set_run_lifecycle c s p reason tool).0 ≡ ok tt
        × IsMirrored (set_run_lifecycle c s p reason tool).1)
      ⊎ ((set_run_lifecycle c s p reason tool).1 ≡ c)
unfolding set_run_lifecycle
set_run_lifecycle-IsMirrored c s p reason tool =
    elim (Bool-cases (valid_transition c.status c.phase (or_else s c.status) (or_else p c.phase))) [
      | inl e ↦
          rw e (inl (refl, record { status_shown = refl; phase_shown = refl; reason_shown = refl }))
      | inr e ↦ rw e (inr refl)
    ]

-- Once a run has a terminal status, no update changes its status or its phase.
pub set_run_lifecycle_frozen :
    (c : LoopContext) (s : Option RunStatus) (p : Option RunPhase) (reason tool : Option String)
    → IsCoherent c
    → is_terminal_status c.status ≡ true
    → let c' = (set_run_lifecycle c s p reason tool).1 in
      (c'.status ≡ c.status) × (c'.phase ≡ c.phase)
unfolding set_run_lifecycle
set_run_lifecycle_frozen c s p reason tool h t =
    ground
      (arith, valid_transition_frozen c.status (or_else s c.status) c.phase (or_else p c.phase))

-- A running run can be ended from every phase, in one update, with every terminal status.
pub set_run_lifecycle_can_end :
    (c : LoopContext) (t : RunStatus) (reason : Option String)
    → c.status ≡ running
    → is_terminal_status t ≡ true
    → IsCoherent c
    → let r = set_run_lifecycle c (some t) (some terminal) reason none in
      (r.0 ≡ ok tt) × (r.1.status ≡ t) × (r.1.phase ≡ terminal)
unfolding set_run_lifecycle is_terminal_status
set_run_lifecycle_can_end c t reason e ht h =
    rw (e, valid_transition_end t c.phase ht (sym (rw e at h))) (refl, refl, refl)

-- A status can only move forward: created, then running, then one of the terminal ones.
abbrev pub stage : RunStatus → ℕ
stage created = 0
stage running = 1
stage completed = 2
stage stopped = 2
stage failed = 2
stage cancelled = 2

valid_transition_forward :
    (s t : RunStatus) (p q : RunPhase) → valid_transition s p t q ≡ true → stage s ≤ stage t
unfolding valid_transition
valid_transition_forward s t p q h = ground arith

pub set_run_lifecycle_forward :
    (c : LoopContext) (s : Option RunStatus) (p : Option RunPhase) (reason tool : Option String)
    → stage c.status ≤ stage (set_run_lifecycle c s p reason tool).1.status
unfolding set_run_lifecycle
set_run_lifecycle_forward c s p reason tool =
    ground
      (arith, valid_transition_forward c.status (or_else s c.status) c.phase (or_else p c.phase))

valid_transition_stop :
    (p : RunPhase)
    → same_phase p terminal ≡ false
    → valid_transition running p running stopping ≡ true
unfolding valid_transition
valid_transition_stop p h = ground arith

-- At or after the deadline a live run is cancelled through its token and left stopping with the
-- reason `deadline_exceeded`; before it, and without one, nothing changes.
pub deadline_expired_lem :
    (now deadline : ℕ) (c : LoopContext)
    → c.deadline_at ≡ some deadline
    → c.status ≡ running
    → same_phase c.phase terminal ≡ false
    → let (r, c') = deadline_expired now c in
      ((now < deadline) × (r ≡ ok false) × (c' ≡ c))
      ⊎ ((deadline ≤ now)
          × (r ≡ ok true)
          × (c'.phase ≡ stopping)
          × (c'.status ≡ running)
          × (c'.termination_reason ≡ some "deadline_exceeded")
          × (c'.cancel_token ≢ some false))
unfolding deadline_expired set_run_lifecycle
deadline_expired_lem now deadline c d s p = elim (Bool-cases (ltb now deadline)) [
  | inl early ↦ rw (d, early) (inl (ltb→lt now deadline early, refl, refl))
  | inr late ↦
      rw (d, late, s, valid_transition_stop c.phase p)
        (inr (ground arith, refl, refl, refl, refl, ground arith))
]
