-- ===== src/Dispatch/Tests.antt =====
-- Batches of concrete calls.
use looplet.Prelude.{
  List, Option, String, [], false, length, map, none, refl, some, true, ℕ, ◌+◌, ◌∷◌, ◌≡◌,
}
use looplet.Prelude.Dict.{Dict}
use looplet.Prelude.Places.{get_elem?}
use looplet.Value.{end, pos, text}
use looplet.Types.{ToolCall, ToolResult}
use looplet.Dispatch.{
  Executor, ToolSpec, add_call, dispatch_batch, is_safe, jobs_of, partition_calls, partition_onto,
  shared,
}
use looplet.Dispatch.Order.{Pointwise, Returns, dispatch_batch-Pointwise}

abbrev call_to : String → String → ToolCall
call_to tool id = record {
  ident = 0;
  tool = tool;
  args = end;
  reasoning = "";
  call_id = id;
  metadata = end;
}

abbrev tools : Dict ToolSpec
tools =
    ("read", record { concurrent_safe = true }) ∷ ("write", record { concurrent_safe = false }) ∷ []

abbrev calls : List ToolCall
calls =
    call_to "read" "a"
    ∷ call_to "read" "b"
    ∷ call_to "write" "c"
    ∷ call_to "gone" "d"
    ∷ call_to "read" "e"
    ∷ []

-- two reads share a batch; a write and an unknown tool are alone
batches_of_calls : map (λ b. length b.calls) (partition_calls tools calls) ≡ 2 ∷ 1 ∷ 1 ∷ 1 ∷ []
unfolding partition_calls partition_onto add_call is_safe
batches_of_calls = refl

-- a tool that answers with its name; the world counts the dispatches
abbrev answer_to : ToolCall × Option ℕ → ToolResult
answer_to job = record {
  tool = job.0.tool;
  args_summary = "";
  payload = text job.0.call_id;
  error = none;
  error_detail = none;
  duration_ms = 0;
  result_key = none;
  call_id = some job.0.call_id;
  warnings = [];
  metadata = end;
}

abbrev future : Option (ToolCall × Option ℕ) → ToolResult
future none = answer_to (call_to "" "", none)
future (some job) = answer_to job

abbrev executor : Executor ℕ ℕ
executor = record {
  dispatch = λ call ctx w. (answer_to (call, ctx), w + 1);
  pool = λ n jobs w. ((λ i. future (get_elem? jobs i)), w + length jobs);
}

abbrev HasId : ToolCall × Option ℕ → ToolResult → Type 0
HasId job r = r.call_id ≡ some job.0.call_id

future-HasId :
    (jobs : List (ToolCall × Option ℕ)) (i : ℕ) (job : ToolCall × Option ℕ)
    → get_elem? jobs i ≡ some job
    → HasId job (future (get_elem? jobs i))
future-HasId jobs i job e = rw e refl

dispatch_batch-Pointwise_example :
    Returns
      (Pointwise HasId (jobs_of calls (shared none)))
      (dispatch_batch executor tools calls (shared none) (some (pos 4)) 0)
dispatch_batch-Pointwise_example =
    dispatch_batch-Pointwise executor tools HasId (λ call ctx w. refl)
      (λ n jobs w. future-HasId jobs) calls (shared none) (some (pos 4)) 0 refl refl
