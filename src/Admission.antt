-- ===== src/Admission.antt =====
-- The admission of model calls, `_AssistantTurns` of src/looplet/assistant_turns.py: how many calls a
-- run may make, and which may overlap. A set of call numbers is a list of them. The clock, the token
-- and the checkpoint are the host's: an attempt says what they answer. `pending_record` says whether
-- the saved data holds a `pending_model_call`; a resumed run may start with one. The lock makes an
-- operation one step.
pub mod Budget
pub mod Overlap
pub mod Uncertain
mod Tests
use looplet.Prelude.{
  Bool, List, Option, String, [], false, if◌then◌else◌, leb, none, not, or_else, some, true, ℕ,
  ◌&&◌, ◌++◌, ◌+◌, ◌==◌, ◌∷◌,
}

-- `n in numbers`, `numbers - {n}`, and the equality of two sets
abbrev pub mem : ℕ → List ℕ → Bool
mem n [] = false
mem n (m ∷ ms) = if m == n then true else mem n ms

abbrev pub discard : ℕ → List ℕ → List ℕ
discard n [] = []
discard n (m ∷ ms) = let rest = discard n ms in if m == n then rest else m ∷ rest

abbrev pub all_in : List ℕ → List ℕ → Bool
all_in [] ms = true
all_in (n ∷ ns) ms = mem n ms && all_in ns ms

abbrev pub same_numbers : List ℕ → List ℕ → Bool
same_numbers ns ms = all_in ns ms && all_in ms ns

abbrev pub is_nonempty : List ℕ → Bool
is_nonempty [] = false
is_nonempty (n ∷ ns) = true

pub record Admission : Type 0 where
  pub max_model_calls : Option ℕ
  pub model_calls : ℕ
  pub pending_calls : List ℕ
  pub active_calls : List ℕ
  pub overlap_safe_calls : List ℕ
  pub pending_record : Bool

-- what the host answers at an attempt; `checkpoint` says whether the save passes, if there is one
pub record Attempt : Type 0 where
  pub allow_inflight : Bool
  pub is_cancelled : Bool
  pub is_expired : Bool
  pub checkpoint : Option Bool

-- `model_calls >= max_model_calls`
abbrev pub is_spent : Option ℕ → ℕ → Bool
is_spent none calls = false
is_spent (some limit) calls = leb limit calls

-- the test of the calls in flight
unfoldable pub may_overlap : Bool → Admission → Bool
may_overlap allow_inflight a =
    allow_inflight
    && (is_nonempty a.active_calls
        && (same_numbers a.active_calls a.pending_calls
            && same_numbers a.active_calls a.overlap_safe_calls))

-- `check_admission`: the reason of a denial
unfoldable pub check_admission : Attempt → Admission → Option String
unfolding may_overlap
check_admission t a =
    if a.pending_record && not (may_overlap t.allow_inflight a)
    then some "unsupported_context"
    else if t.is_cancelled
    then some "cancelled"
    else if t.is_expired
    then some "deadline_exceeded"
    else if is_spent a.max_model_calls a.model_calls
    then some "model_call_budget"
    else none

-- `_update_pending_calls`
unfoldable pub update_pending_calls : Admission → Admission
update_pending_calls a = record a { pending_record = is_nonempty a.pending_calls }

-- `abandon`: the call stays pending
unfoldable pub abandon : ℕ → Admission → Admission
abandon n a = record a {
  active_calls = discard n a.active_calls;
  overlap_safe_calls = discard n a.overlap_safe_calls;
}

-- `acknowledge`
unfoldable pub acknowledge : ℕ → Admission → Admission
unfolding update_pending_calls
acknowledge n a = update_pending_calls (record a {
  active_calls = discard n a.active_calls;
  overlap_safe_calls = discard n a.overlap_safe_calls;
  pending_calls = discard n a.pending_calls;
})

-- the call that `admit` enters
unfoldable pub enter_call : Bool → Admission → Admission
unfolding update_pending_calls
enter_call allow_inflight a =
    let n = a.model_calls + 1 in
    update_pending_calls (record a {
      model_calls = n;
      pending_calls = a.pending_calls ++ n ∷ [];
      active_calls = n ∷ a.active_calls;
      overlap_safe_calls =
          if allow_inflight then n ∷ a.overlap_safe_calls else a.overlap_safe_calls;
    })

-- what an attempt comes to: a denial, a save that raised, or the number of the call
pub data Admitted : Type 0 where
  denied : String → Admitted
  save_failed : Admitted
  granted : ℕ → Admitted

-- `admit`, after its check
unfoldable pub admit_checked : Attempt → Admission → Option String → Admitted × Admission
unfolding enter_call abandon
admit_checked t a (some reason) = (denied reason, a)
admit_checked t a none =
    let n = a.model_calls + 1 in
    let a' = enter_call t.allow_inflight a in
    if or_else t.checkpoint true then (granted n, a') else (save_failed, abandon n a')

unfoldable pub admit : Attempt → Admission → Admitted × Admission
unfolding check_admission admit_checked
admit t a = admit_checked t a (check_admission t a)

-- what happens in a run
pub data Happening : Type 0 where
  attempts : Attempt → Happening
  abandons : ℕ → Happening
  acknowledges : ℕ → Happening

abbrev pub happen : Happening → Admission → Admission
happen (attempts t) a = (admit t a).1
happen (abandons n) a = abandon n a
happen (acknowledges n) a = acknowledge n a

abbrev pub run_happenings : List Happening → Admission → Admission
run_happenings [] a = a
run_happenings (h ∷ hs) a = run_happenings hs (happen h a)

-- `__init__` without saved data, and with them: the calls that were made, and whether one was pending
unfoldable pub resumed : Option ℕ → ℕ → Bool → Admission
resumed limit calls was_pending = record {
  max_model_calls = limit;
  model_calls = calls;
  pending_calls = [];
  active_calls = [];
  overlap_safe_calls = [];
  pending_record = was_pending;
}
