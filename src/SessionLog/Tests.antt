-- ===== src/SessionLog/Tests.antt =====
-- Compacting a concrete session log.
use looplet.Prelude.{
  List, String, [], false, length, map, none, refl, some, str_mem, ℕ, ◌==◌, ◌∷◌, ◌≡◌,
}
use looplet.SessionLog.{
  LogEntry, Renderer, SessionLog, add_entry, all_entities, compact, compacted, session_log,
  summary_entry,
}
use looplet.SessionLog.Entities.{all_entities-compact}

abbrev log_entry : ℕ → String → LogEntry
log_entry n entity = record {
  step = n;
  theory = "";
  tool = "read";
  reasoning = "";
  entities_seen = entity ∷ [];
  findings = [];
  highlights = [];
  recall_key = "";
}

-- adds three steps
abbrev more_steps : SessionLog → SessionLog
more_steps log =
    add_entry (log_entry 3 "c") (add_entry (log_entry 2 "b") (add_entry (log_entry 1 "a") log))

abbrev log : SessionLog
log = add_entry (log_entry 4 "d") (more_steps session_log)

abbrev renderer : Renderer
renderer = record { render_compact = λ es. "steps"; step_range = λ es. ""; sorted_set = λ xs. xs }

abbrev compact_again : SessionLog → SessionLog
compact_again log = (compact renderer 1 none (more_steps log)).1

abbrev counts : SessionLog → List ℕ
counts log = map (λ e. length e.findings) log.entries

-- With nothing to keep, nothing is compacted.
keep_nothing : compact renderer 0 none log ≡ (false, log)
unfolding compact add_entry
keep_nothing = refl

-- Every compaction repeats the findings of all earlier summaries: each summary has twice as many
-- as the one before.
findings_double : counts (compact_again (compact_again (compact_again log))) ≡ 1 ∷ 2 ∷ 4 ∷ 0 ∷ []
unfolding compact compacted summary_entry add_entry
findings_double = refl

all_entities-compact_example :
    str_mem "a" (all_entities (compact renderer 1 (some (λ e. e.step == 2)) log).1)
    ≡ str_mem "a" (all_entities log)
all_entities-compact_example =
    all_entities-compact renderer (λ x xs. refl) 1 (some (λ e. e.step == 2)) log "a"
