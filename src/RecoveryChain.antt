-- ===== src/RecoveryChain.antt =====
-- The recovery of a prompt that is too long: `_recovery_chain` of src/looplet/loop.py. A strategy, the
-- preparation of the prompt and the request to the model act on the host's world.
pub mod Once
mod Tests
use looplet.Prelude.{
  Bool, List, Option, String, [], false, if◌then◌else◌, not, or_else, true, ℕ, ◌+◌, ◌||◌, ◌∷◌,
}
use looplet.Prelude.Dict.{Dict, insert, lookup}

-- the part of an `LLMResult` that the chain reads and writes
pub record LlmResult : Type 0 where
  pub ok : Bool
  pub is_prompt_too_long : Bool
  pub native_attempted : Bool
  pub calls : ℕ
  pub continuations : ℕ

-- `_include_previous`
unfoldable pub include_previous : LlmResult → LlmResult → LlmResult
include_previous previous r = record r {
  calls = r.calls + previous.calls;
  continuations = r.continuations + previous.continuations;
}

-- `recovery_state`: the strategies that were tried, and its entry `_last_recovery_llm_calls`
pub record RecoveryState : Type 0 where
  pub tried : Dict Bool
  pub last_recovery_llm_calls : ℕ

-- `recovery_state.get(name)`
abbrev pub is_tried : String → RecoveryState → Bool
is_tried name s = or_else (lookup name s.tried) false

abbrev pub mark : String → RecoveryState → RecoveryState
mark name s = record s { tried = insert name true s.tried }

-- `apply` runs a strategy and answers with the model calls it spent; `prepare` prepares the prompt
-- and answers whether it is still under pressure, or `none` without a preparation
pub record Recoverer (W : Type 0) : Type 0 where
  pub apply : String → W → ℕ × W
  pub prepare : W → Option Bool × W
  pub request : W → LlmResult × W

-- `retry_result.calls + (0 if retry_result.native_attempted else retry_result.continuations)`
abbrev pub calls_spent : LlmResult → ℕ
calls_spent r = r.calls + (if r.native_attempted then 0 else r.continuations)

-- the end of the chain: its result, and the calls it spent
abbrev pub end_chain : ℕ → LlmResult → RecoveryState → LlmResult × RecoveryState
end_chain extra result s = (result, record s { last_recovery_llm_calls = extra })

module _ {W : Type 0} (h : Recoverer W) where
  -- what follows the strategy: the chain goes on, or ends with the result of another request
  unfoldable pub try_strategies :
      List String → RecoveryState → ℕ → LlmResult → W → (LlmResult × RecoveryState) × W
  try_strategies [] s extra result w = (end_chain extra result s, w)
  try_strategies (name ∷ names) s extra result w = elim (is_tried name s) [
    | true ↦ try_strategies names s extra result w
    | false ↦
        let (spent, w₁) = h.apply name w in
        let (pressure, w₂) = h.prepare w₁ in
        elim (or_else pressure false) [
          | true ↦ try_strategies names (mark name s) (extra + spent) result w₂
          | false ↦
              let (retried, w₃) = h.request w₂ in
              let total = extra + spent + calls_spent retried in
              let merged = include_previous result retried in
              elim (retried.ok || not retried.is_prompt_too_long) [
                | true ↦ (end_chain total merged (mark name s), w₃)
                | false ↦ try_strategies names (mark name s) total merged w₃
              ]
        ]
  ]

  -- `_recovery_chain`
  unfoldable pub recovery_chain : LlmResult → RecoveryState → W → (LlmResult × RecoveryState) × W
  recovery_chain result s w =
      try_strategies ("budget_enforcement" ∷ "emergency_truncate" ∷ "result_clearing" ∷ []) s 0
        result w
