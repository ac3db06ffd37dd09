-- ===== src/RecoveryChain/Once.antt =====
-- How often a strategy runs in the life of a recovery state.
use looplet.Prelude.{
  Bool-cases, List, String, [], arith, eq_iff, false, if◌then◌else◌, inl, inr, not, or_else, str_eq,
  subst, true, ℕ, ◌+◌, ◌||◌, ◌∷◌, ◌≡◌, ◌≤◌,
}
use looplet.Prelude.Dict.{lookup-insert}
use looplet.RecoveryChain.{
  LlmResult, Recoverer, RecoveryState, is_tried, mark, recovery_chain, try_strategies,
}

-- the same host, with a log of the strategies that it ran
abbrev pub watched : {W : Type 0} → Recoverer W → Recoverer (W × List String)
watched h = record {
  apply = λ name s. let (spent, w) = h.apply name s.0 in (spent, (w, name ∷ s.1));
  prepare = λ s. let (pressure, w) = h.prepare s.0 in (pressure, (w, s.1));
  request = λ s. let (result, w) = h.request s.0 in (result, (w, s.1));
}

-- how often a name occurs
abbrev pub count_name : String → List String → ℕ
count_name name [] = 0
count_name name (n ∷ ns) = let rest = count_name name ns in if str_eq n name then rest + 1 else rest

-- every strategy of the log is marked, and ran once
abbrev pub IsOnce : RecoveryState → List String → Type 0
IsOnce s log = (name : String) → count_name name log ≤ (if is_tried name s then 1 else 0)

mark-IsOnce :
    (name : String) (s : RecoveryState) (log : List String)
    → is_tried name s ≡ false
    → IsOnce s log
    → IsOnce (mark name s) (name ∷ log)
mark-IsOnce name s log fresh once other = elim (Bool-cases (str_eq name other)) [
  | inl e ↦
      let same = (eq_iff name other).0 e in
      let never : count_name other log ≤ 0 =
        rw (subst (λ k. is_tried k s ≡ false) same fresh) at (once other) in
      rw (lookup-insert name other true s.tried, e) (omega arith)
  | inr e ↦ rw (lookup-insert name other true s.tried, e) (once other)
]

module _ {W : Type 0} (h : Recoverer W) where
  try_strategies-IsOnce :
      (names : List String) (s : RecoveryState) (extra : ℕ) (result : LlmResult) (w : W)
      (log : List String)
      → IsOnce s log
      → let ((_, s'), (_, log')) = try_strategies (watched h) names s extra result (w, log) in
        IsOnce s' log'
  unfolding try_strategies
  try_strategies-IsOnce [] s extra result w log once = once
  try_strategies-IsOnce (name ∷ names) s extra result w log once =
      elim (Bool-cases (is_tried name s)) [
        | inl t ↦ rw (try_strategies, t) (try_strategies-IsOnce names s extra result w log once)
        | inr t ↦
            let marked = mark-IsOnce name s log t once in
            let (spent, w₁) = h.apply name w in
            let (pressure, w₂) = h.prepare w₁ in
            let (retried, w₃) = h.request w₂ in
            elim (Bool-cases (or_else pressure false)) [
              | inl p ↦
                  rw (try_strategies, t, p)
                    (try_strategies-IsOnce names (mark name s) _ result w₂ (name ∷ log) marked)
              | inr p ↦ elim (Bool-cases (retried.ok || not retried.is_prompt_too_long)) [
                | inl d ↦ rw (try_strategies, t, p, d) marked
                | inr d ↦
                    rw (try_strategies, t, p, d)
                      (try_strategies-IsOnce names (mark name s) _ _ w₃ (name ∷ log) marked)
              ]
            ]
      ]

  -- the chains of a run, one for each prompt that is too long, on one recovery state
  abbrev pub run_chains :
      List LlmResult → RecoveryState → W × List String → RecoveryState × (W × List String)
  run_chains [] s w = (s, w)
  run_chains (result ∷ results) s w =
      let ((_, s'), w') = recovery_chain (watched h) result s w in run_chains results s' w'

  -- However often the chain runs on one recovery state, which the synchronous loop makes once for a
  -- run and never resets, no recovery strategy runs twice, after a success of the chain, too: if every
  -- strategy of the log is there at most once and is marked as tried, then so it is after the chains.
  pub run_chains-IsOnce :
      (results : List LlmResult) (s : RecoveryState) (w : W) (log : List String)
      → IsOnce s log
      → let (s', (_, log')) = run_chains results s (w, log) in IsOnce s' log'
  unfolding recovery_chain
  run_chains-IsOnce [] s w log once = once
  run_chains-IsOnce (result ∷ results) s w log once =
      let ((_, s'), (w', log')) = recovery_chain (watched h) result s (w, log) in
      run_chains-IsOnce results s' w' log' (try_strategies-IsOnce _ s 0 result w log once)
