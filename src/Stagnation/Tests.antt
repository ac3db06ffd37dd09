-- ===== src/Stagnation/Tests.antt =====
-- The stagnation hook at concrete steps: the fingerprint is the name of the tool.
use looplet.Prelude.{String, [], none, refl, some, str_eq, true, ℕ, ◌∷◌, ◌≡◌}
use looplet.Value.{end, null}
use looplet.Types.{ToolCall, ToolResult}
use looplet.Stagnation.{
  StagnationHook, Watch, after_progress, count_step, nudge_if_stuck, post_dispatch, watch_all,
  watch_progress,
}
use looplet.Stagnation.Streak.{Repeats}

abbrev watch : Watch ℕ String
watch = record {
  same = str_eq;
  fingerprint = λ w call result. some call.tool;
  threshold = 3;
  nudge = λ w n. "try something else";
  progress = none;
  reset_after_nudge = true;
  ignore_tools = "done" ∷ [];
}

abbrev grep_call : ToolCall
grep_call = record {
  ident = 0;
  tool = "grep";
  args = end;
  reasoning = "";
  call_id = "";
  metadata = end;
}

abbrev no_match : ToolResult
no_match = record {
  tool = "grep";
  args_summary = "";
  payload = null;
  error = none;
  error_detail = none;
  duration_ms = 0;
  result_key = none;
  call_id = none;
  warnings = [];
  metadata = end;
}

abbrev step : ℕ × ToolCall × ToolResult
step = (0, grep_call, no_match)

abbrev fresh : StagnationHook String
fresh = record { last_fingerprint = none; streak = 0; last_progress = none }

abbrev once : StagnationHook String
once = record { last_fingerprint = some "grep"; streak = 1; last_progress = none }

-- three steps in a row, twice
watched :
    (watch_all watch (step ∷ step ∷ step ∷ step ∷ step ∷ step ∷ []) fresh).0
    ≡ none ∷ none ∷ some "try something else" ∷ none ∷ none ∷ some "try something else" ∷ []
unfolding watch_all post_dispatch watch_progress after_progress count_step nudge_if_stuck
watched = refl

step-Repeats : Repeats watch "grep" step
step-Repeats = record { watched = refl; fingerprint_is = refl }
