-- ===== src/RecoveryChain/Tests.antt =====
-- The recovery chain at a concrete host: its world counts the requests to the model.
use looplet.Prelude.{[], arith, false, refl, some, true, ℕ, ◌+◌, ◌==◌, ◌∷◌, ◌≡◌}
use looplet.RecoveryChain.{
  LlmResult, Recoverer, RecoveryState, include_previous, recovery_chain, try_strategies,
}
use looplet.RecoveryChain.Once.{IsOnce, run_chains, run_chains-IsOnce}

abbrev too_long : LlmResult
too_long = record {
  ok = false;
  is_prompt_too_long = true;
  native_attempted = true;
  calls = 1;
  continuations = 0;
}

-- the second request fits
abbrev recoverer : Recoverer ℕ
recoverer = record {
  apply = λ name n. (0, n);
  prepare = λ n. (some false, n);
  request = λ n. (record too_long { ok = n == 1 }, n + 1);
}

abbrev fresh : RecoveryState
fresh = record { tried = []; last_recovery_llm_calls = 0 }

-- two strategies for the first prompt, the third for the second, none for the last
three_prompts :
    (run_chains recoverer (too_long ∷ too_long ∷ too_long ∷ []) fresh (0, [])).1
    ≡ (3, "result_clearing" ∷ "emergency_truncate" ∷ "budget_enforcement" ∷ [])
unfolding recovery_chain try_strategies include_previous
three_prompts = refl

run_chains-IsOnce_example :
    let (s', (_, log')) = run_chains recoverer (too_long ∷ too_long ∷ []) fresh (0, []) in
    IsOnce s' log'
run_chains-IsOnce_example =
    run_chains-IsOnce recoverer (too_long ∷ too_long ∷ []) fresh 0 [] (λ name. omega arith)
