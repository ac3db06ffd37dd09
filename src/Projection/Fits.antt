-- ===== src/Projection/Fits.antt =====
-- A projected result fits its limit.
use looplet.Prelude.{
  Bool, Bool-cases, Option, String, if◌then◌else◌, inl, inr, min, none, some, str_eq, subst, sym,
  true, ℕ, ◌==◌, ◌≡◌,
}
use looplet.Value.{Fields, get}
use looplet.Types.{ToolResult}
use looplet.Projection.{
  Preview, Projected, Renderer, bisect, context_overflow_error, cut_error, finish_refusal, fits,
  is_true, project_plain, project_tool_result, projection_of, refuse, shorten, shorten_error,
  show_preview, value_error, view, with_preview,
}
use looplet.Projection.Search.{bisect-fits}

module _ (c : Renderer) where
  abbrev pub IsView : (ToolResult → Type 0) → Projected → Type 0
  IsView P (view r) = P r
  IsView P value_error = Unit {0}
  IsView P context_overflow_error = Unit {0}

  abbrev pub FitsIn : ℕ → ToolResult → Type 0
  FitsIn limit r = fits c limit r ≡ true

  shorten-Fits :
      (limit : ℕ) (r : ToolResult) (error : String)
      → IsView (FitsIn limit) (shorten c limit r error)
  shorten-Fits limit r error =
      let test : ℕ → Bool = λ n. fits c limit (cut_error c n r error) in
      let upper = c.text_length error in
      elim (bisect-fits upper test 0 upper) [
        | inl e ↦ rw e tt
        | inr e ↦ elim (Bool-cases (bisect upper test 0 upper == 0)) [
          | inl z ↦ rw z tt
          | inr z ↦ rw z e
        ]
      ]

  shorten_error-Fits :
      (limit : ℕ) (r : ToolResult) (error : Option String)
      → IsView (FitsIn limit) (shorten_error c limit r error)
  shorten_error-Fits limit r none = tt
  shorten_error-Fits limit r (some error) = elim (Bool-cases (str_eq error "")) [
    | inl e ↦ rw e tt
    | inr e ↦ rw e (shorten-Fits limit r error)
  ]

  if_fits :
      (limit : ℕ) (r : ToolResult) (other : Projected)
      → IsView (FitsIn limit) other
      → IsView (FitsIn limit) (if fits c limit r then view r else other)
  if_fits limit r other h = elim (Bool-cases (fits c limit r)) [ inl e ↦ rw e e | inr e ↦ rw e h ]

  finish_refusal-Fits :
      (limit : ℕ) (refused flagged : ToolResult) (error : Option String)
      → IsView (FitsIn limit) (finish_refusal c limit refused flagged error)
  unfolding finish_refusal
  finish_refusal-Fits limit refused flagged error =
      if_fits limit refused _ (shorten_error-Fits limit flagged error)

  refuse-Fits :
      (r : ToolResult) (error : String) (limit : ℕ) → IsView (FitsIn limit) (refuse c r error limit)
  unfolding refuse
  refuse-Fits r error limit = finish_refusal-Fits limit _ _ _

  module _ (cut_none : (s : String) → c.cut 0 s ≡ "") where
    show_preview-Fits :
        (limit : ℕ) (p : Preview c) (candidate : ToolResult)
        → IsView (FitsIn limit) (show_preview c limit p candidate)
    unfolding show_preview
    show_preview-Fits limit p candidate =
        let test : ℕ → Bool = λ n. fits c limit (with_preview c p (c.cut n p.raw) candidate) in
        let upper = min (c.text_length p.raw) limit in
        elim (Bool-cases (fits c limit (with_preview c p "" candidate))) [
          | inr e ↦ rw e (refuse-Fits _ _ limit)
          | inl e ↦
              let none_shown : test 0 ≡ true =
                subst (λ s. fits c limit (with_preview c p s candidate) ≡ true)
                  (sym (cut_none p.raw)) e in
              rw e (found test upper none_shown)
        ]
      where
        found :
            (test' : ℕ → Bool) (upper' : ℕ)
            → test' 0 ≡ true
            → test' (bisect upper' test' 0 upper') ≡ true
        found test' upper' z = elim (bisect-fits upper' test' 0 upper') [
          | inl e ↦ rw e z
          | inr e ↦ e
        ]

    project_plain-Fits :
        (r : ToolResult) (limit : ℕ) (hints : Fields)
        → IsView (FitsIn limit) (project_plain c r limit hints)
    project_plain-Fits r limit hints = if_fits limit _ _ (show_preview-Fits limit _ _)

    -- Whatever a tool has returned and whatever its hints say, a projection of its result is not longer
    -- than its limit, whether it shows the data, a preview or a refusal; where none would be that short,
    -- it raises. The empty slice of a text is empty.
    pub project_tool_result-Fits :
        (r : ToolResult) (limit : ℕ) → IsView (FitsIn limit) (project_tool_result c r limit)
    unfolding project_tool_result
    project_tool_result-Fits r limit =
        let prior = projection_of r in
        elim (Bool-cases (limit == 0)) [
          | inl z ↦ rw z tt
          | inr z ↦ elim (Bool-cases (is_true (get "refused" prior))) [
            | inl f ↦ rw (z, f) (refuse-Fits r _ limit)
            | inr f ↦ elim (Bool-cases (is_true (get "result_is_view" r.metadata))) [
              | inl v ↦ rw (z, f, v) (if_fits limit _ _ (refuse-Fits _ _ limit))
              | inr v ↦ rw (z, f, v) (project_plain-Fits r limit _)
            ]
          ]
        ]
