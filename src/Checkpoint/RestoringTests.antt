-- ===== src/Checkpoint/RestoringTests.antt =====
-- Two components whose state is one number: the first sets it, the second refuses to restore.
use looplet.Prelude.{List, Option, [], false, map, none, refl, some, str_eq, true, ℕ, ◌∷◌, ◌≡◌}
use looplet.Value.{Fields, dict, end, field, text, dict, end, field, text}
use looplet.Checkpoint.Participants.{
  Json, Participant, Participants, all_pass, all_versions, capture, capture_all,
  checkpoint_participants, failed, prepare, restore, restore_all, schema_name, validate, well_named,
}
use looplet.Checkpoint.Restoring.{IsSafe, restore-IsSafe}
use looplet.Checkpoint.Captured.{validate-capture}

abbrev plain : Json
plain = record {
  detach = λ fields. some fields;
  equal = λ d fields. true;
  is_blank = λ s. str_eq s "";
}

abbrev counter : Participant ℕ
counter = record {
  name = "counter";
  version = "1";
  capture = λ w. some (dict end);
  validate = λ w state. true;
  restore = λ w state. (true, 7);
}

abbrev stubborn : Participant ℕ
stubborn = record counter { name = "stubborn"; restore = λ w state. (false, w) }

abbrev both : Participants ℕ
both = record { participants = counter ∷ stubborn ∷ []; identity = "host"; failed_restore = false }

abbrev saved_of : Option Fields → List Fields
saved_of none = []
saved_of (some state) = state ∷ []

-- What was captured is valid.
captured_valid : map (validate plain both 3) (saved_of (capture plain both 3)) ≡ true ∷ []
unfolding capture capture_all validate prepare all_versions all_pass schema_name
captured_valid = refl

-- The second component fails after the first was restored.
half_restored :
    map (λ state. (restore plain both 3 state).0) (saved_of (capture plain both 3)) ≡ failed ∷ []
unfolding capture capture_all restore prepare all_versions all_pass restore_all schema_name
half_restored = refl

same_name_refused : checkpoint_participants plain (counter ∷ counter ∷ []) "host" ≡ none
unfolding checkpoint_participants well_named
same_name_refused = refl

abbrev saved_state : Fields
saved_state = field "version" (text "1") (field "state" (dict end) end)

abbrev saved : Fields
saved = field "schema" (text schema_name) (
    field "identity" (text "host") (
      field "participants"
        (dict (field "counter" (dict saved_state) (field "stubborn" (dict saved_state) end))) end))

restore-IsSafe_example : IsSafe plain both 3 saved (restore plain both 3 saved)
restore-IsSafe_example = restore-IsSafe plain both 3 saved

validate-capture_example : validate plain both 3 saved ≡ true
unfolding capture capture_all well_named schema_name
validate-capture_example = validate-capture plain both 3 saved refl refl refl
