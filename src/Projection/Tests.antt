-- ===== src/Projection/Tests.antt =====
-- Projections of results whose data is a text: a result is as long as its text, and a refusal is one
-- character long.
use looplet.Prelude.{List, String, [], if◌then◌else◌, length, map, none, refl, str_eq, ℕ, ◌∷◌, ◌≡◌}
use looplet.Value.{Value, end, text, text, end}
use looplet.Types.{ToolResult}
use looplet.Projection.{Renderer, bisect, finish_refusal, project_tool_result, refuse, show_preview}
use looplet.Projection.Fits.{FitsIn, IsView, project_tool_result-Fits}
use looplet.Projection.Batch.{
  Bounded, bound_result_batch, bound_round, bound_slots, bounded, largest, shrink,
}
use looplet.Projection.Bounded.{IsBounded, bound_result_batch-IsBounded}

abbrev length_of : Value → ℕ
length_of (text s) = if str_eq s "a long text" then 11 else if str_eq s "short" then 5 else 1
length_of v = 1

abbrev renderer : Renderer
renderer = record {
  size = λ r. length_of r.payload;
  dumps = λ v. "";
  text_length = λ s. 0;
  cut = λ n s. "";
  reason_of = λ s. s;
  truncate = λ v limit hints. v;
  note_of = λ n. "";
}

abbrev text_result : String → ToolResult
text_result s = record {
  tool = "read";
  args_summary = "";
  payload = text s;
  error = none;
  error_detail = none;
  duration_ms = 0;
  result_key = none;
  call_id = none;
  warnings = [];
  metadata = end;
}

abbrev results : List ToolResult
results = text_result "short" ∷ text_result "a long text" ∷ []

abbrev lengths_of : Bounded → List ℕ
lengths_of (bounded rs) = map (λ r. length_of r.payload) rs
lengths_of _ = []

-- only the largest result is made smaller
largest_shrunk : lengths_of (bound_result_batch renderer results 10) ≡ 5 ∷ 1 ∷ []
unfolding bound_result_batch bound_slots largest shrink bound_round project_tool_result show_preview
    refuse finish_refusal bisect
largest_shrunk = refl

project_tool_result-Fits_example :
    IsView renderer (FitsIn renderer 3) (project_tool_result renderer (text_result "a long text") 3)
project_tool_result-Fits_example =
    project_tool_result-Fits renderer (λ s. refl) (text_result "a long text") 3

bound_result_batch-IsBounded_example :
    IsBounded renderer 10 (length results) (bound_result_batch renderer results 10)
bound_result_batch-IsBounded_example = bound_result_batch-IsBounded renderer results 10
