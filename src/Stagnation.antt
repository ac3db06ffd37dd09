-- ===== src/Stagnation.antt =====
-- `StagnationHook` of src/looplet/stagnation.py: the nudge after repeated steps. The fingerprint, the
-- progress counter and the wording of the nudge are callables of the host; a progress counter that
-- raises answers `none`.
pub mod Streak
mod Tests
use looplet.Prelude.{
  Bool, List, Option, String, [], false, if◌then◌else◌, leb, ltb, none, or_else, some, str_mem,
  true, ℕ, ◌+◌, ◌∷◌,
}
use looplet.Value.{negsuc, pos, ℤ}
use looplet.Types.{ToolCall, ToolResult}

-- the arguments of the constructor; `F` is the type of fingerprints, and `same` their equality
pub record Watch (W F : Type 0) : Type 0 where
  pub same : F → F → Bool
  pub fingerprint : W → ToolCall → ToolResult → Option F
  pub threshold : ℕ
  pub nudge : W → ℕ → String
  pub progress : Option (W → Option ℤ)
  pub reset_after_nudge : Bool
  pub ignore_tools : List String

pub record StagnationHook (F : Type 0) : Type 0 where
  pub last_fingerprint : Option F
  pub streak : ℕ
  pub last_progress : Option ℤ

-- the constructor: `none` is the `ValueError`
unfoldable pub stagnation_hook : {W F : Type 0} → Watch W F → Option (StagnationHook F)
stagnation_hook watch =
    if ltb watch.threshold 2
    then none
    else some (record { last_fingerprint = none; streak = 0; last_progress = none })

-- `reset`
unfoldable pub reset : {F : Type 0} → StagnationHook F → StagnationHook F
reset h = record { last_fingerprint = none; streak = 0; last_progress = none }

-- `a > b`
abbrev pub greater : ℤ → ℤ → Bool
greater (pos a) (pos b) = ltb b a
greater (pos a) (negsuc b) = true
greater (negsuc a) (pos b) = false
greater (negsuc a) (negsuc b) = ltb a b

abbrev pub has_grown : ℤ → Option ℤ → Bool
has_grown current none = false
has_grown current (some last) = greater current last

module _ {W F : Type 0} (watch : Watch W F) where
  -- the progress counter: whether it has grown, and the hook afterwards
  unfoldable pub watch_progress : W → StagnationHook F → Bool × StagnationHook F
  watch_progress w h = elim watch.progress [
    | none ↦ (false, h)
    | some counter ↦
        let current = or_else (counter w) (or_else h.last_progress (pos 0)) in
        if has_grown current h.last_progress
        then (true, record { last_fingerprint = none; streak = 0; last_progress = some current })
        else (false, record h { last_progress = some current })
  ]

  abbrev pub is_last : F → Option F → Bool
  is_last f none = false
  is_last f (some g) = watch.same g f

  -- the streak with this fingerprint
  unfoldable pub count_step : F → StagnationHook F → StagnationHook F
  count_step f h =
      if is_last f h.last_fingerprint
      then record h { streak = h.streak + 1 }
      else record h { streak = 1; last_fingerprint = some f }

  -- the nudge, if the streak is long enough
  unfoldable pub nudge_if_stuck : W → StagnationHook F → Option String × StagnationHook F
  nudge_if_stuck w h =
      if leb watch.threshold h.streak
      then (
        some (watch.nudge w h.streak),
        if watch.reset_after_nudge then record h { streak = 0; last_fingerprint = none } else h,
      )
      else (none, h)

  -- the rest of `post_dispatch`, after the progress counter
  unfoldable pub after_progress :
      W → Option F → Bool × StagnationHook F → Option String × StagnationHook F
  after_progress w o (true, h) = (none, h)
  after_progress w none (false, h) = (none, record h { streak = 0; last_fingerprint = none })
  after_progress w (some f) (false, h) = nudge_if_stuck w (count_step f h)

  -- `post_dispatch`
  unfoldable pub post_dispatch :
      W → ToolCall → ToolResult → StagnationHook F → Option String × StagnationHook F
  post_dispatch w call result h =
      if str_mem call.tool watch.ignore_tools
      then (none, h)
      else after_progress w (watch.fingerprint w call result) (watch_progress w h)

  -- a sequence of tool calls: the answers, and the hook afterwards
  unfoldable pub watch_all :
      List (W × ToolCall × ToolResult) → StagnationHook F → List (Option String) × StagnationHook F
  watch_all [] h = ([], h)
  watch_all ((w, call, result) ∷ steps) h =
      let (answer, h') = post_dispatch w call result h in
      let (answers, last) = watch_all steps h' in (answer ∷ answers, last)
