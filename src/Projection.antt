-- ===== src/Projection.antt =====
-- Bounded views of tool results for the model: src/looplet/result_projection.py. The JSON text of a
-- result is seen by its length only, so `size` (the length of `payload_text`), `dumps`, the slices of
-- texts and the truncation of data are parameters; an earlier preview is a text; the limit of a call is given.
-- A `while` loop takes fuel; the children show that it never runs out.
pub mod Search
pub mod Fits
pub mod Batch
pub mod Bounded
mod Tests
use looplet.Prelude.{
  Bool, Option, String, [], false, if◌then◌else◌, is_some, leb, ltb, min, none, not, or_else, some,
  str_eq, suc, true, zero, ℕ, ◌&&◌, ◌+◌, ◌-◌, ◌/◌, ◌==◌,
}
use looplet.Value.{
  Fields, Value, bool, dict, end, field, get, int, negsuc, null, pos, text, truthy, ℤ, dict, text,
  int, pos, bool, null, field, end,
}
use looplet.Types.{ToolResult}
use looplet.Registry.Arguments.{set_field}

-- `lower, upper` of a bisection: the greatest number up to `upper` that fits, where the numbers that
-- fit come first
unfoldable pub bisect : ℕ → (ℕ → Bool) → ℕ → ℕ → ℕ
bisect zero fits lower upper = lower
bisect (suc fuel) fits lower upper =
    let middle = (lower + upper + 1) / 2 in
    let higher = bisect fuel fits middle upper in
    let lesser = bisect fuel fits lower (middle - 1) in
    if ltb lower upper then (if fits middle then higher else lesser) else lower

-- what a projection comes to: a view, or one of its two exceptions
pub data Projected : Type 0 where
  view : ToolResult → Projected
  value_error : Projected
  context_overflow_error : Projected

pub record Renderer : Type 0 where
  pub size : ToolResult → ℕ
  pub dumps : Value → String
  pub text_length : String → ℕ
  pub cut : ℕ → String → String
  -- `error.partition(":")[0]`
  pub reason_of : String → String
  -- `truncate_tool_result`, for a limit and the hints of the result
  pub truncate : Value → ℕ → Fields → Value
  pub note_of : ℕ → String

abbrev pub fields_or : Option Value → Fields → Fields
fields_or (some (dict fields)) other = fields
fields_or _ other = other

abbrev pub number_of : ℕ → Value
number_of n = int (pos n)

-- `{"max_chars": limit}`, the projection that a candidate carries
abbrev pub with_projection : Fields → ToolResult → ToolResult
with_projection projection r = record r {
  metadata = set_field "model_projection" (dict projection) r.metadata;
}

abbrev pub limit_projection : ℕ → Fields
limit_projection limit = field "max_chars" (number_of limit) end

-- `result.metadata.get("model_projection", {})` and its delivery
abbrev pub projection_of : ToolResult → Fields
projection_of r = fields_or (get "model_projection" r.metadata) end

abbrev pub is_true : Option Value → Bool
is_true none = false
is_true (some v) = truthy v

abbrev pub text_in : Option Value → String
text_in (some (text s)) = s
text_in _ = ""

-- `offset + middle`
abbrev pub plus_natural : ℤ → ℕ → ℤ
plus_natural (pos n) m = pos (n + m)
plus_natural (negsuc n) m = if ltb n m then pos (m - suc n) else negsuc (n - m)

module _ (c : Renderer) where
  abbrev pub fits : ℕ → ToolResult → Bool
  fits limit r = leb (c.size r) limit

  -- the keys that a page of content adds to the delivery
  abbrev pub page_delivery : ℕ → ToolResult → Fields → Option Value → Option Value → Fields → Fields
  page_delivery limit r fields (some (text content)) (some (int offset)) delivery =
      let page : ℕ → Bool = λ middle. fits limit (
        with_projection (limit_projection limit) (record r {
          payload = dict (
              set_field "next_offset" (int (plus_natural offset middle))
                (set_field "content" (text (c.cut middle content)) fields));
        })) in
      let shown = bisect (c.text_length content) page 0 (c.text_length content) in
      set_field "suggested_limit" (if shown == 0 then null else number_of shown)
        (set_field "offset" (int offset) delivery)
  page_delivery limit r fields content offset delivery = delivery

  abbrev pub key_delivery : Option Value → Fields → Fields
  key_delivery none delivery = delivery
  key_delivery (some v) delivery = if truthy v then set_field "result_key" v delivery else delivery

  abbrev pub payload_delivery : ℕ → ToolResult → Value → Fields → Fields
  payload_delivery limit r (dict fields) delivery =
      key_delivery (get "result_key" fields)
        (page_delivery limit r fields (get "content" fields) (get "offset" fields) delivery)
  payload_delivery limit r payload delivery = delivery

  -- the result that says that a view was refused
  abbrev pub refused_with : ℕ → Fields → ToolResult → ToolResult
  refused_with limit delivery r =
      with_projection
        (field "max_chars" (number_of limit)
          (field "refused" (bool true) (field "delivery" (dict delivery) end)))
        (record r { payload = null; warnings = [] })

  -- an error that is cut until the refusal fits
  abbrev pub cut_error : ℕ → ToolResult → String → ToolResult
  cut_error n r error = record r { error = some (c.cut n error) }

  abbrev pub shorten : ℕ → ToolResult → String → Projected
  shorten limit r error =
      let shown =
        bisect (c.text_length error) (λ n. fits limit (cut_error n r error)) 0
          (c.text_length error) in
      if shown == 0 then context_overflow_error else view (cut_error shown r error)

  abbrev pub shorten_error : ℕ → ToolResult → Option String → Projected
  shorten_error limit r none = context_overflow_error
  shorten_error limit r (some error) =
      if str_eq error "" then context_overflow_error else shorten limit r error

  -- the refusal, or one with an error that is cut
  unfoldable pub finish_refusal : ℕ → ToolResult → ToolResult → Option String → Projected
  finish_refusal limit refused flagged error =
      if fits limit refused then view refused else shorten_error limit flagged error

  -- `_refuse`
  unfoldable pub refuse : ToolResult → String → ℕ → Projected
  refuse r error limit =
      let delivery = payload_delivery limit r r.payload (
        set_field "max_chars" (number_of limit) (
          set_field "reason" (text (c.reason_of error)) (
            set_field "status" (text "refused")
              (fields_or (get "delivery" (projection_of r)) end)))) in
      finish_refusal limit (refused_with limit delivery r)
        (refused_with limit (set_field "error_truncated" (bool true) delivery) r) r.error

  -- the data that stands for a text that is too long, and the key of its preview
  abbrev pub preview_text : Value → String
  preview_text (text s) = s
  preview_text v = c.dumps v

  abbrev pub drop_key : String → Fields → Fields
  drop_key k end = end
  drop_key k (field j v fs) =
      let rest = drop_key k fs in if str_eq j k then rest else field j v rest

  abbrev pub has_key : String → Fields → Bool
  has_key k fields = is_some (get k fields)

  abbrev pub note_fields : ℕ → Fields
  note_fields n =
      field "truncated" (bool true)
        (field "total_chars" (number_of n) (field "note" (text (c.note_of n)) end))

  abbrev pub merged : Fields → Fields → Fields
  merged base end = base
  merged base (field k v fs) = merged (set_field k v base) fs

  pub record Preview : Type 0 where
    pub key : String
    pub raw : String
    pub base : Fields

  abbrev pub persisted_preview : String → Value → Preview
  persisted_preview raw (dict fields) =
      if has_key "persisted_output_path" fields
      then record {
        key = "truncated_output";
        raw = raw;
        base = merged (note_fields (c.text_length raw)) (drop_key "truncated_output" fields);
      }
      else record { key = "preview"; raw = raw; base = note_fields (c.text_length raw) }
  persisted_preview raw payload = record {
    key = "preview";
    raw = raw;
    base = note_fields (c.text_length raw);
  }

  -- an earlier preview is cut further, any other data is shown by its text
  abbrev pub preview_of : Fields → Value → Value → Preview
  preview_of prior (dict fields) candidate =
      if truthy (dict prior) && is_true (get "truncated" fields)
      then (let key = if has_key "truncated_output" fields then "truncated_output" else "preview" in
          record { key = key; raw = text_in (get key fields); base = drop_key key fields })
      else persisted_preview (preview_text (dict fields)) candidate
  preview_of prior payload candidate = persisted_preview (preview_text payload) candidate

  abbrev pub with_preview : Preview → String → ToolResult → ToolResult
  with_preview p shown r = record r { payload = dict (set_field p.key (text shown) p.base) }

  -- the longest preview that fits
  unfoldable pub show_preview : ℕ → Preview → ToolResult → Projected
  show_preview limit p candidate =
      let upper = min (c.text_length p.raw) limit in
      if fits limit (with_preview p "" candidate)
      then view (
          with_preview p
            (c.cut
              (bisect upper (λ n. fits limit (with_preview p (c.cut n p.raw) candidate)) 0 upper)
              p.raw)
            candidate)
      else refuse (record candidate { payload = dict p.base })
          "result_metadata_too_large: result remains in run evidence." limit

  -- `project_tool_result`, for a limit that is given
  abbrev pub project_plain : ToolResult → ℕ → Fields → Projected
  project_plain r limit hints =
      let marked = with_projection (limit_projection limit) r in
      let candidate =
        if is_some r.error && not (str_eq (or_else r.error "") "")
        then marked
        else record marked { payload = c.truncate r.payload limit hints } in
      if fits limit candidate
      then view candidate
      else show_preview limit (preview_of (projection_of r) r.payload candidate.payload) candidate

  unfoldable pub project_tool_result : ToolResult → ℕ → Projected
  project_tool_result r limit =
      let prior = projection_of r in
      let marked = with_projection (limit_projection limit) r in
      if limit == 0
      then value_error
      else if is_true (get "refused" prior)
      then refuse r (text_in (get "reason" (fields_or (get "delivery" prior) end))) limit
      else if is_true (get "result_is_view" r.metadata)
      then (if fits limit marked
          then view marked
          else refuse marked
              "result_view_too_large: request a smaller limit; no page was delivered." limit)
      else project_plain r limit (fields_or (get "render" r.metadata) end)
