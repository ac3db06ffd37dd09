-- ===== src/Checkpoint/Tests.antt =====
-- Checkpoints of two runs.
use looplet.Prelude.{Bool, List, String, [], false, none, not, refl, some, str_eq, true, ◌∷◌, ◌≡◌}
use looplet.Prelude.Dict.{lookup}
use looplet.Value.{end, end}
use looplet.Checkpoint.{
  Checkpoint, CheckpointFile, Directory, absent, better, blocked, checkpoint_order, is_after,
  is_later, is_terminal, load_latest_for_resume, read_file, resumes, scan, select,
}
use looplet.Checkpoint.Latest.{AllYield, IsHeld, Superseded, load_latest_for_resume-latest}
use looplet.Checkpoint.Owner.{Retains, run_saves, run_saves-Retains}

abbrev first_step : Checkpoint
first_step = record {
  step_number = 1;
  created_at = 10;
  run_status = "running";
  run_phase = "awaiting_model";
  termination_reason = none;
  turn_state = absent;
  run_id = some "a";
  contents = end;
}

abbrev second_step : Checkpoint
second_step = record first_step { step_number = 2; created_at = 20 }

abbrev foreign_step : Checkpoint
foreign_step = record first_step { run_id = some "b" }

abbrev anything : String → Bool
anything s = true

abbrev separated : String → Bool
separated s = not (str_eq s "notes")

abbrev files : List CheckpointFile
files =
    record { stem = "a__one"; reading = some first_step; is_verified = true }
    ∷ record { stem = "a__two"; reading = some second_step; is_verified = true }
    ∷ record { stem = "b__one"; reading = none; is_verified = false }
    ∷ []

latest_chosen : load_latest_for_resume anything separated (some "a") files ≡ resumes second_step
unfolding load_latest_for_resume scan read_file select is_terminal better is_later checkpoint_order
    is_after
latest_chosen = refl

-- An unreadable file whose name belongs to no other run blocks the run.
unreadable_blocks :
    load_latest_for_resume anything separated
      (some "a")
      (record { stem = "notes"; reading = none; is_verified = false } ∷ files)
    ≡ blocked
unfolding load_latest_for_resume scan read_file select is_terminal better is_later checkpoint_order
    is_after
unreadable_blocks = refl

load_latest_for_resume-latest_example :
    IsHeld anything separated (some "a") second_step files
    × AllYield anything separated
        (some "a")
        (Superseded anything separated (some "a") second_step)
        files
load_latest_for_resume-latest_example =
    load_latest_for_resume-latest anything separated (some "a") files second_step latest_chosen

-- The paths of the runs "a" and "a__b" coincide: the second save is refused.
abbrev stored : Directory
stored = ("a__b__c", some first_step) ∷ []

run_saves-Retains_example : Retains (lookup "a__b__c" stored) (
    lookup "a__b__c" (
      run_saves anything separated
        ((record first_step { run_id = some "a__b" }, "c") ∷ (second_step, "b__c") ∷ [])
        stored))
run_saves-Retains_example =
    run_saves-Retains anything separated
      ((record first_step { run_id = some "a__b" }, "c") ∷ (second_step, "b__c") ∷ []) "a__b__c"
      stored
