-- ===== src/Dispatch.antt =====
-- Batches of tool calls: `_partition_calls`, `dispatch_batch` and `_dispatch_concurrent_batch` of
-- src/looplet/tools.py. One dispatch, and the thread pool of Python's library, are parameters: the
-- pool is handed the jobs and a number of workers, runs them in any order and interleaving, and answers
-- with the result of each future, by the number of its submission.
pub mod Partition
pub mod Order
mod Tests
use looplet.Prelude.{
  Bool, List, Option, [], drop, false, if◌then◌else◌, leb, length, ltb, map, min, none, not, some,
  suc, take, true, ℕ, ◌&&◌, ◌++◌, ◌+◌, ◌==◌, ◌∷◌,
}
use looplet.Prelude.Dict.{Dict, lookup}
use looplet.Value.{negsuc, pos, ℤ}
use looplet.Types.{ToolCall, ToolResult}

-- the part of a `ToolSpec` that batching reads
pub record ToolSpec : Type 0 where
  pub concurrent_safe : Bool

pub record Batch : Type 0 where
  pub concurrent : Bool
  pub calls : List ToolCall

-- `spec.concurrent_safe if spec else False`
unfoldable pub is_safe : Dict ToolSpec → ToolCall → Bool
is_safe tools call = elim (lookup call.tool tools) [
  | none ↦ false
  | some spec ↦ spec.concurrent_safe
]

-- one turn of the loop: the call joins the last batch, or starts a batch
unfoldable pub add_call : Bool → ToolCall → List Batch → List Batch
add_call safe call [] = record { concurrent = safe; calls = call ∷ [] } ∷ []
add_call safe call (batch ∷ []) =
    if batch.concurrent && safe
    then record batch { calls = batch.calls ++ call ∷ [] } ∷ []
    else batch ∷ record { concurrent = safe; calls = call ∷ [] } ∷ []
add_call safe call (batch ∷ next ∷ batches) = batch ∷ add_call safe call (next ∷ batches)

unfoldable pub partition_onto : Dict ToolSpec → List Batch → List ToolCall → List Batch
partition_onto tools batches [] = batches
partition_onto tools batches (call ∷ calls) =
    partition_onto tools (add_call (is_safe tools call) call batches) calls

-- `_partition_calls`
unfoldable pub partition_calls : Dict ToolSpec → List ToolCall → List Batch
partition_calls tools calls = partition_onto tools [] calls

-- the argument `ctx`: one context for every call, or one for each
pub data Contexts (C : Type 0) : Type 0 where
  shared : Option C → Contexts C
  each : List (Option C) → Contexts C

abbrev pub zip {ℓ κ} : {A : Type ℓ} {B : Type κ} → List A → List B → List (A × B)
zip [] ys = []
zip (x ∷ xs) [] = []
zip (x ∷ xs) (y ∷ ys) = (x, y) ∷ zip xs ys

-- the calls with their contexts, as the comprehensions pair them
abbrev pub jobs_of : {C : Type 0} → List ToolCall → Contexts C → List (ToolCall × Option C)
jobs_of calls (shared c) = map (λ call. (call, c)) calls
jobs_of calls (each cs) = zip calls cs

-- `ctxs[offset : offset + n]`
abbrev pub slice : {C : Type 0} → ℕ → ℕ → Contexts C → Contexts C
slice offset n (shared c) = shared c
slice offset n (each cs) = each (take n (drop offset cs))

-- `len(ctx) != len(calls)`
abbrev pub mismatched : {C : Type 0} → List ToolCall → Contexts C → Bool
mismatched calls (shared c) = false
mismatched calls (each cs) = not (length cs == length calls)

-- `max_workers is not None and max_workers <= 0`
abbrev pub no_workers : Option ℤ → Bool
no_workers none = false
no_workers (some (pos n)) = n == 0
no_workers (some (negsuc n)) = true

-- `max_workers or 10`
abbrev pub workers_or_ten : Option ℤ → ℕ
workers_or_ten none = 10
workers_or_ten (some (pos n)) = if n == 0 then 10 else n
workers_or_ten (some (negsuc n)) = 10

pub record Executor (W C : Type 0) : Type 0 where
  pub dispatch : ToolCall → Option C → W → ToolResult × W
  pub pool : ℕ → List (ToolCall × Option C) → W → (ℕ → ToolResult) × W

-- `[f.result() for f in futures]`, from a number on
unfoldable pub collect_results : {A : Type 0} → (ℕ → ToolResult) → ℕ → List A → List ToolResult
collect_results result i [] = []
collect_results result i (job ∷ jobs) = result i ∷ collect_results result (suc i) jobs

module _ {W C : Type 0} (executor : Executor W C) (tools : Dict ToolSpec) where
  -- one dispatch after the other
  unfoldable pub dispatch_each : List (ToolCall × Option C) → W → List ToolResult × W
  dispatch_each [] w = ([], w)
  dispatch_each ((call, ctx) ∷ jobs) w =
      let (result, w') = executor.dispatch call ctx w in
      let (results, last) = dispatch_each jobs w' in (result ∷ results, last)

  -- `_dispatch_concurrent_batch`; `none` is the `ValueError`
  unfoldable pub dispatch_concurrent_batch :
      List ToolCall → Contexts C → Option ℤ → W → Option (List ToolResult × W)
  unfolding collect_results
  dispatch_concurrent_batch calls ctx max_workers w =
      if mismatched calls ctx
      then none
      else if leb (length calls) 1
      then some (dispatch_each (jobs_of calls ctx) w)
      else let jobs = jobs_of calls ctx in
        let (result, w') = executor.pool (min (workers_or_ten max_workers) (length calls)) jobs w in
        some (collect_results result 0 jobs, w')

  -- one batch
  unfoldable pub run_batch : Batch → Contexts C → Option ℤ → W → Option (List ToolResult × W)
  run_batch batch ctx max_workers w =
      if batch.concurrent && ltb 1 (length batch.calls)
      then dispatch_concurrent_batch batch.calls ctx max_workers w
      else some (dispatch_each (jobs_of batch.calls ctx) w)

  -- `results.extend(..)`
  unfoldable pub extend :
      List ToolResult → Option (List ToolResult × W) → Option (List ToolResult × W)
  extend results none = none
  extend results (some (more, w)) = some (results ++ more, w)

  -- the loop over the batches
  unfoldable pub run_batches :
      List Batch → ℕ → Contexts C → Option ℤ → W → Option (List ToolResult × W)
  run_batches [] offset ctx max_workers w = some ([], w)
  run_batches (batch ∷ batches) offset ctx max_workers w =
      (elim (run_batch batch (slice offset (length batch.calls) ctx) max_workers w) [
        | none ↦ none
        | some (results, w') ↦
            extend results (run_batches batches (offset + length batch.calls) ctx max_workers w')
      ])

  -- `dispatch_batch`
  unfoldable pub dispatch_batch :
      List ToolCall → Contexts C → Option ℤ → W → Option (List ToolResult × W)
  dispatch_batch [] ctx max_workers w = some ([], w)
  dispatch_batch (call ∷ calls) ctx max_workers w =
      if no_workers max_workers
      then none
      else if mismatched (call ∷ calls) ctx
      then none
      else run_batches (partition_calls tools (call ∷ calls)) 0 ctx max_workers w
