-- ===== src/SessionLog.antt =====
-- The session log of src/looplet/session.py: recording a step and compacting old steps. The rendering
-- of texts, and `sorted` of a set of texts, are parameters.
pub mod Entities
mod Tests
use looplet.Prelude.{
  Bool, List, Option, String, [], drop, false, if◌then◌else◌, keep_if, leb, length, ltb, none, not,
  some, str_eq, take, true, ℕ, ◌&&◌, ◌++◌, ◌-◌, ◌==◌, ◌||◌, ◌∷◌,
}

pub record LogEntry : Type 0 where
  pub step : ℕ
  pub theory : String
  pub tool : String
  pub reasoning : String
  pub entities_seen : List String
  pub findings : List String
  pub highlights : List String
  pub recall_key : String

pub record SessionLog : Type 0 where
  pub entries : List LogEntry
  pub current_theory : String

-- the constructor
abbrev pub session_log : SessionLog
session_log = record { entries = []; current_theory = "" }

-- `record`: a theory persists until the next one; the entry comes with its own theory
unfoldable pub add_entry : LogEntry → SessionLog → SessionLog
add_entry entry log =
    let theory = if str_eq entry.theory "" then log.current_theory else entry.theory in
    record {
      entries = log.entries ++ record entry { theory = theory } ∷ [];
      current_theory = theory;
    }

-- what an entry adds to the set of all entities
abbrev pub entities_of : LogEntry → List String
entities_of e = e.entities_seen ++ e.highlights

abbrev pub collect : (LogEntry → List String) → List LogEntry → List String
collect f [] = []
collect f (e ∷ es) = f e ++ collect f es

-- the members of the set that `all_entities` returns
unfoldable pub all_entities : SessionLog → List String
all_entities log = collect entities_of log.entries

abbrev pub is_summary : LogEntry → Bool
is_summary e = str_eq e.tool "__summary__"

-- `entries[:-n]` and `entries[-n:]`; for 0 they are empty and the whole list
abbrev pub older_entries : ℕ → List LogEntry → List LogEntry
older_entries n entries = if n == 0 then [] else take (length entries - n) entries

abbrev pub recent_entries : ℕ → List LogEntry → List LogEntry
recent_entries n entries = if n == 0 then entries else drop (length entries - n) entries

-- `must_preserve(e)`, for a predicate that may be missing
abbrev pub preserves : Option (LogEntry → Bool) → LogEntry → Bool
preserves none e = false
preserves (some f) e = f e

-- the texts of a summary, and `sorted(set(..))`
pub record Renderer : Type 0 where
  pub render_compact : List LogEntry → String
  pub step_range : List LogEntry → String
  pub sorted_set : List String → List String

module _ (renderer : Renderer) where
  -- `self.render_compact(to_compress) if to_compress else ""`, added to the findings if not empty
  abbrev pub summary_findings : List LogEntry → List String
  summary_findings [] = []
  summary_findings (e ∷ es) =
      let text = renderer.render_compact (e ∷ es) in if str_eq text "" then [] else text ∷ []

  -- the entry that stands for the compressed ones
  unfoldable pub summary_entry : List LogEntry → List LogEntry → LogEntry
  summary_entry existing to_compress = record {
    step = 0;
    theory = "";
    tool = "__summary__";
    reasoning = renderer.step_range to_compress;
    entities_seen =
        renderer.sorted_set
          (collect entities_of to_compress ++ collect (λ e. e.entities_seen) existing);
    findings = collect (λ e. e.findings) existing ++ summary_findings to_compress;
    highlights = [];
    recall_key = "";
  }

  abbrev pub summaries : List LogEntry → List LogEntry → List LogEntry
  summaries existing [] = existing
  summaries existing (e ∷ es) = existing ++ summary_entry existing (e ∷ es) ∷ []

  -- the two early returns: fewer than three steps to compress, and nothing preserved among them
  abbrev pub too_few : Option (LogEntry → Bool) → List LogEntry → Bool
  too_few must_preserve steps =
      let preserved = keep_if (preserves must_preserve) steps in
      let left = keep_if (λ e. not (preserves must_preserve e)) steps in
      ltb (length steps) 3 || (ltb (length left) 3 && length preserved == 0)

  -- the entries after a compaction of the older ones
  unfoldable pub compacted :
      Option (LogEntry → Bool) → List LogEntry → List LogEntry → List LogEntry
  compacted must_preserve old recent =
      let steps = keep_if (λ e. not (is_summary e)) old in
      let existing = keep_if is_summary old in
      let preserved = keep_if (preserves must_preserve) steps in
      let to_compress = keep_if (λ e. not (preserves must_preserve e)) steps in
      (summaries existing to_compress ++ preserved) ++ recent

  -- `compact`: whether it compacted, and the log after it
  unfoldable pub compact : ℕ → Option (LogEntry → Bool) → SessionLog → Bool × SessionLog
  compact max_entries must_preserve log =
      let old = older_entries max_entries log.entries in
      let recent = recent_entries max_entries log.entries in
      if leb (length log.entries) max_entries
        || too_few must_preserve (keep_if (λ e. not (is_summary e)) old)
      then (false, log)
      else (true, record log { entries = compacted must_preserve old recent })
