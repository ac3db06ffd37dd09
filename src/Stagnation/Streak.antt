-- ===== src/Stagnation/Streak.antt =====
-- When the nudge comes.
use looplet.Prelude.{
  All, Bool, Bool-cases, List, Option, Option-cases, [], ap, arith, false, inl, inr, leb, length,
  map, none, or_else, some, str_mem, true, ℕ, ◌++◌, ◌+◌, ◌<◌, ◌∙◌, ◌∷◌, ◌≡◌, ◌≤◌,
}
use looplet.Value.{pos}
use looplet.Types.{ToolCall, ToolResult}
use looplet.Stagnation.{
  StagnationHook, Watch, after_progress, count_step, has_grown, nudge_if_stuck, post_dispatch,
  watch_all, watch_progress,
}

-- A step that cannot be progress: the tool is watched, no counter is set, and the fingerprint is `f`.
pub record Repeats {W F : Type 0} (watch : Watch W F) (f : F) (step : W × ToolCall × ToolResult)
    : Type 0 where
  pub watched : str_mem step.1.tool watch.ignore_tools ≡ false
  pub fingerprint_is : watch.fingerprint step.0 step.1 step.2 ≡ some f

module _ {W F : Type 0} (watch : Watch W F) where
  nudge_if_stuck_bound :
      (w : W) (h : StagnationHook F)
      → 2 ≤ watch.threshold
      → watch.reset_after_nudge ≡ true
      → (nudge_if_stuck watch w h).1.streak < watch.threshold
  unfolding nudge_if_stuck
  nudge_if_stuck_bound w h t r = elim (Bool-cases (leb watch.threshold h.streak)) [
    | inl e ↦ rw (e, r) (omega arith)
    | inr e ↦ rw e (ground arith)
  ]

  watch_progress_bound :
      (w : W) (h : StagnationHook F) → (watch_progress watch w h).1.streak ≤ h.streak
  unfolding watch_progress
  watch_progress_bound w h = elim (Option-cases watch.progress) [
    | inl e ↦ rw e (omega arith)
    | inr (counter, e) ↦
        elim (Bool-cases
          (has_grown (or_else (counter w) (or_else h.last_progress (pos 0))) h.last_progress)) [
            | inl g ↦ rw (e, watch_progress, g) (omega arith)
            | inr g ↦ rw (e, watch_progress, g) (omega arith)
          ]
  ]

  after_progress_bound :
      (w : W) (o : Option F) (r : Bool × StagnationHook F)
      → 2 ≤ watch.threshold
      → watch.reset_after_nudge ≡ true
      → r.1.streak < watch.threshold
      → (after_progress watch w o r).1.streak < watch.threshold
  unfolding after_progress
  after_progress_bound w o (true, h) t r b = b
  after_progress_bound w none (false, h) t r b = omega arith
  after_progress_bound w (some f) (false, h) t r b =
      nudge_if_stuck_bound w (count_step watch f h) t r

  post_dispatch_bound :
      (w : W) (call : ToolCall) (result : ToolResult) (h : StagnationHook F)
      → 2 ≤ watch.threshold
      → watch.reset_after_nudge ≡ true
      → h.streak < watch.threshold
      → (post_dispatch watch w call result h).1.streak < watch.threshold
  unfolding post_dispatch
  post_dispatch_bound w call result h t r b =
      elim (Bool-cases (str_mem call.tool watch.ignore_tools)) [
        | inl e ↦ rw e b
        | inr e ↦ rw e (
            after_progress_bound w (watch.fingerprint w call result) (watch_progress watch w h) t r
              (omega (arith, watch_progress_bound w h)))
      ]

  -- With a reset after each nudge the streak stays below the threshold, over any sequence of tool
  -- calls, whatever their fingerprints and the progress counter. The threshold is at least 2.
  pub watch_all_bound :
      (steps : List (W × ToolCall × ToolResult)) (h : StagnationHook F)
      → 2 ≤ watch.threshold
      → watch.reset_after_nudge ≡ true
      → h.streak < watch.threshold
      → (watch_all watch steps h).1.streak < watch.threshold
  unfolding watch_all
  watch_all_bound [] h t r b = b
  watch_all_bound ((w, call, result) ∷ steps) h t r b =
      watch_all_bound steps (post_dispatch watch w call result h).1 t r
        (post_dispatch_bound w call result h t r b)

  -- a repeated step
  post_dispatch_repeated :
      (f : F) (step : W × ToolCall × ToolResult) (h : StagnationHook F)
      → watch.progress ≡ none
      → watch.same f f ≡ true
      → Repeats watch f step
      → h.last_fingerprint ≡ some f
      → post_dispatch watch step.0 step.1 step.2 h
        ≡ nudge_if_stuck watch step.0 (record h { streak = h.streak + 1 })
  unfolding post_dispatch watch_progress after_progress count_step
  post_dispatch_repeated f step h p s q l = rw (q.watched, p, q.fingerprint_is, l, s)

  below : (t n : ℕ) → n < t → leb t n ≡ false
  below t n h = ground arith

  repeated_quiet :
      (f : F) (step : W × ToolCall × ToolResult) (h : StagnationHook F)
      → watch.progress ≡ none
      → watch.same f f ≡ true
      → Repeats watch f step
      → h.last_fingerprint ≡ some f
      → h.streak + 1 < watch.threshold
      → post_dispatch watch step.0 step.1 step.2 h ≡ (none, record h { streak = h.streak + 1 })
  unfolding nudge_if_stuck
  repeated_quiet f step h p s q l n =
      let early : leb watch.threshold (h.streak + 1) ≡ false = below _ _ n in
      post_dispatch_repeated f step h p s q l ∙ rw (nudge_if_stuck, early)

  reached : (t n : ℕ) → n ≡ t → leb t n ≡ true
  reached t n h = ground arith

  repeated_nudge :
      (f : F) (step : W × ToolCall × ToolResult) (h : StagnationHook F)
      → watch.progress ≡ none
      → watch.same f f ≡ true
      → Repeats watch f step
      → h.last_fingerprint ≡ some f
      → h.streak + 1 ≡ watch.threshold
      → (post_dispatch watch step.0 step.1 step.2 h).0 ≡ some (watch.nudge step.0 watch.threshold)
  unfolding nudge_if_stuck
  repeated_nudge f step h p s q l n =
      let late : leb watch.threshold (h.streak + 1) ≡ true = reached _ _ n in
      ap (λ r. r.0) (post_dispatch_repeated f step h p s q l)
      ∙ rw (nudge_if_stuck, late) (ap (λ k. some (watch.nudge step.0 k)) n)

  -- While the same fingerprint is repeated and no progress is counted, nothing is said until the
  -- streak reaches the threshold, and at that step the nudge is given, with or without a reset.
  pub watch_all_repeated :
      (f : F) (steps : List (W × ToolCall × ToolResult)) (w : W) (call : ToolCall)
      (result : ToolResult) (h : StagnationHook F)
      → watch.progress ≡ none
      → watch.same f f ≡ true
      → All (Repeats watch f) (steps ++ (w, call, result) ∷ [])
      → h.last_fingerprint ≡ some f
      → h.streak + length steps + 1 ≡ watch.threshold
      → (watch_all watch (steps ++ (w, call, result) ∷ []) h).0
        ≡ map (λ step. none) steps ++ some (watch.nudge w watch.threshold) ∷ []
  unfolding watch_all nudge_if_stuck
  watch_all_repeated f [] w call result h p s a l n =
      ap (λ o. o ∷ []) (repeated_nudge f (w, call, result) h p s a.0 l (omega arith))
  watch_all_repeated f (step ∷ steps) w call result h p s a l n =
      let quiet = repeated_quiet f step h p s a.0 l (omega arith) in
      rw quiet (
        ap (λ answers. none ∷ answers)
          (watch_all_repeated f steps w call result (record h { streak = h.streak + 1 }) p s a.1 l
            (omega arith)))
