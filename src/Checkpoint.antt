-- ===== src/Checkpoint.antt =====
-- Checkpoints of src/looplet/checkpoint.py: which of the files of a directory a run resumes from, and
-- which file a save may replace. A file is its name and what reading it gives; files do not change
-- while they are read. A save is that of a checkpoint that has a JSON form; the form itself, its
-- errors and the temporary file are left out. The time of a checkpoint is a whole number of ticks. The
-- texts of a status and of a phase are those of the run's lifecycle. `has_separator` tests a name for
-- "__", and `is_component` stands for the path tests of `_validate_run_id`.
pub mod Kept
pub mod Latest
pub mod Owner
pub mod Participants
pub mod Restoring
pub mod Captured
mod RestoringTests
mod Tests
use Prim.Native.String.{◌++◌ as str_append}
use looplet.Prelude.{
  Bool, List, Option, String, [], false, if◌then◌else◌, is_some, ltb, none, not, some, starts_with,
  str_eq, str_mem, true, ℕ, ◌&&◌, ◌||◌, ◌∷◌,
}
use looplet.Prelude.Dict.{Dict, insert, lookup}
use looplet.Value.{Fields}

-- the saved state of the assistant turns: none, the two counters, or something else
pub data TurnState : Type 0 where
  absent : TurnState
  counters : ℕ → ℕ → TurnState
  malformed : TurnState

pub record Checkpoint : Type 0 where
  pub step_number : ℕ
  pub created_at : ℕ
  pub run_status : String
  pub run_phase : String
  pub termination_reason : Option String
  pub turn_state : TurnState
  pub run_id : Option String
  pub contents : Fields

-- `is_terminal`
unfoldable pub is_terminal : Checkpoint → Bool
is_terminal cp =
    str_mem cp.run_status ("completed" ∷ "failed" ∷ "cancelled" ∷ [])
    || (str_eq cp.run_phase "terminal" || is_some cp.termination_reason)

-- `_checkpoint_order`: `none` is the `ValueError`
abbrev pub order_of_turns : TurnState → ℕ → ℕ → Option (List ℕ)
order_of_turns absent step at = some (0 ∷ 0 ∷ step ∷ at ∷ [])
order_of_turns (counters turns calls) step at = some (turns ∷ calls ∷ step ∷ at ∷ [])
order_of_turns malformed step at = none

unfoldable pub checkpoint_order : Checkpoint → Option (List ℕ)
checkpoint_order cp = order_of_turns cp.turn_state cp.step_number cp.created_at

-- the comparison of tuples
unfoldable pub is_after : List ℕ → List ℕ → Bool
is_after [] ms = false
is_after (n ∷ ns) [] = true
is_after (n ∷ ns) (m ∷ ms) =
    let rest = is_after ns ms in if ltb m n then true else if ltb n m then false else rest

-- `_checkpoint_order(cp) > _checkpoint_order(best)`
abbrev pub compare_orders : Option (List ℕ) → Option (List ℕ) → Option Bool
compare_orders none theirs = none
compare_orders (some ours) none = none
compare_orders (some ours) (some theirs) = some (is_after ours theirs)

unfoldable pub is_later : Checkpoint → Checkpoint → Option Bool
unfolding checkpoint_order
is_later cp best = compare_orders (checkpoint_order cp) (checkpoint_order best)

abbrev pub same_run : Option String → Option String → Bool
same_run none none = true
same_run (some r) (some s) = str_eq r s
same_run _ _ = false

-- a file `stem.json`; `none` for one that cannot be read, and whether its records are verified
pub record CheckpointFile : Type 0 where
  pub stem : String
  pub reading : Option Checkpoint
  pub is_verified : Bool

pub record Selection : Type 0 where
  pub best : Option Checkpoint
  pub terminal : Option Checkpoint

-- the better of a checkpoint and the best so far; the first one is not compared
abbrev pub keep_later : Option Bool → Checkpoint → Checkpoint → Option Checkpoint
keep_later none cp best = none
keep_later (some true) cp best = some cp
keep_later (some false) cp best = some best

unfoldable pub better : Checkpoint → Option Checkpoint → Option Checkpoint
better cp none = some cp
better cp (some best) = keep_later (is_later cp best) cp best

pub data Resume : Type 0 where
  invalid_run_id : Resume
  blocked : Resume
  nothing : Resume
  resumes : Checkpoint → Resume

-- the checkpoint of a file that was read and verified, put into the selection
abbrev pub put_best : Selection → Option Checkpoint → Option Selection
put_best s none = none
put_best s (some cp) = some (record s { best = some cp })

abbrev pub put_terminal : Selection → Option Checkpoint → Option Selection
put_terminal s none = none
put_terminal s (some cp) = some (record s { terminal = some cp })

unfoldable pub select : Checkpoint → Selection → Option Selection
unfolding better
select cp s =
    if is_terminal cp then put_terminal s (better cp s.terminal) else put_best s (better cp s.best)

-- the body of the `try`: `none` is an error
unfoldable pub read_file :
    Option String → CheckpointFile → Option Checkpoint → Selection → Option Selection
read_file run file none s = none
read_file run file (some cp) s =
    if same_run cp.run_id run then if file.is_verified then select cp s else none else some s

-- the checkpoint that a path holds; `none` for one that cannot be read
abbrev pub Directory : Type 0
Directory = Dict (Option Checkpoint)

unfoldable pub replace :
    Checkpoint → String → Option (Option Checkpoint) → Directory → Option Directory
replace cp path none d = some (insert path (some cp) d)
replace cp path (some none) d = none
replace cp path (some (some existing)) d =
    if same_run existing.run_id cp.run_id then some (insert path (some cp) d) else none

module _ (is_component has_separator : String → Bool) where
  -- the file belongs to another run, by its name
  abbrev pub is_foreign : Option String → CheckpointFile → Bool
  is_foreign none file = false
  is_foreign (some run) file =
      has_separator file.stem && not (starts_with file.stem (str_append run "__"))

  abbrev pub or_skip : Bool → Selection → Option Selection → Option Selection
  or_skip foreign s none = if foreign then some s else none
  or_skip foreign s (some s') = some s'

  abbrev pub visit : Option String → CheckpointFile → Selection → Option Selection
  visit run file s = or_skip (is_foreign run file) s (read_file run file file.reading s)

  abbrev pub then_visit : (Selection → Option Selection) → Option Selection → Option Selection
  then_visit k none = none
  then_visit k (some s) = k s

  unfoldable pub scan : Option String → List CheckpointFile → Selection → Option Selection
  unfolding read_file
  scan run [] s = some s
  scan run (file ∷ files) s = then_visit (scan run files) (visit run file s)

  abbrev pub has_turn_state : TurnState → Bool
  has_turn_state absent = false
  has_turn_state (counters turns calls) = true
  has_turn_state malformed = true

  abbrev pub resume_best : Option Checkpoint → Resume
  resume_best none = nothing
  resume_best (some cp) = resumes cp

  -- a terminal checkpoint ends the run, unless it carries the state of assistant turns
  abbrev pub resume_of : Selection → Option Checkpoint → Resume
  resume_of s none = resume_best s.best
  resume_of s (some cp) = if has_turn_state cp.turn_state then resumes cp else nothing

  abbrev pub settle : Option Selection → Resume
  settle none = blocked
  settle (some s) = resume_of s s.terminal

  abbrev pub is_valid : Option String → Bool
  is_valid none = true
  is_valid (some run) = is_component run

  -- `load_latest_for_resume`, for the files in the order of their names
  unfoldable pub load_latest_for_resume : Option String → List CheckpointFile → Resume
  unfolding scan
  load_latest_for_resume run files =
      if is_valid run
      then settle (scan run files (record { best = none; terminal = none }))
      else invalid_run_id

  -- `key_for`, for a key without directories; `none` is the `ValueError` of an identity
  unfoldable pub key_for : Checkpoint → String → Option String
  key_for cp key = elim cp.run_id [
    | none ↦ some key
    | some run ↦ if is_component run then some (str_append run (str_append "__" key)) else none
  ]

  -- `save` of a checkpoint that has a JSON form: what the path holds afterwards is this checkpoint.
  -- `none` is an error, which leaves the directory as it is
  unfoldable pub save : Checkpoint → String → Directory → Option Directory
  unfolding key_for replace
  save cp key d = elim (key_for cp key) [
    | none ↦ none
    | some path ↦ replace cp path (lookup path d) d
  ]
