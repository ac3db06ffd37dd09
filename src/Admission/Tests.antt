-- ===== src/Admission/Tests.antt =====
-- The admission of model calls at concrete runs.
use looplet.Prelude.{List, [], arith, false, none, refl, some, true, ◌+◌, ◌∷◌, ◌≡◌}
use looplet.Admission.{
  Admission, Attempt, Happening, abandon, abandons, acknowledge, acknowledges, admit, admit_checked,
  attempts, check_admission, denied, enter_call, may_overlap, resumed, run_happenings,
  update_pending_calls,
}
use looplet.Admission.Budget.{IsWithin, entries, entries-IsWithin}
use looplet.Admission.Overlap.{IsExclusive, resumed-IsExclusive}
use looplet.Admission.Uncertain.{AllDenied, uncertain-AllDenied}

abbrev alone : Attempt
alone = record {
  allow_inflight = false;
  is_cancelled = false;
  is_expired = false;
  checkpoint = none;
}

abbrev beside : Attempt
beside = record alone { allow_inflight = true }

-- two calls overlap, a third that may not is turned away, and the ceiling of three holds
abbrev happenings : List Happening
happenings =
    attempts beside
    ∷ attempts beside
    ∷ attempts alone
    ∷ acknowledges 1
    ∷ acknowledges 2
    ∷ attempts alone
    ∷ attempts beside
    ∷ []

three_made : (run_happenings happenings (resumed (some 3) 0 false)).model_calls ≡ 3
unfolding resumed admit check_admission may_overlap admit_checked enter_call update_pending_calls
    abandon acknowledge
three_made = refl

-- A run that is resumed with a pending call admits none.
resumed_blocked : (admit beside (resumed none 2 true)).0 ≡ denied "unsupported_context"
unfolding resumed admit check_admission may_overlap admit_checked
resumed_blocked = refl

entries-IsWithin_example :
    ((run_happenings happenings (resumed (some 3) 0 false)).model_calls
      ≡ (resumed (some 3) 0 false).model_calls + entries happenings (resumed (some 3) 0 false))
    × IsWithin
        (resumed (some 3) 0 false).model_calls
        (resumed (some 3) 0 false).max_model_calls
        (run_happenings happenings (resumed (some 3) 0 false)).model_calls
entries-IsWithin_example = entries-IsWithin happenings (resumed (some 3) 0 false)

resumed-IsExclusive_example : IsExclusive (run_happenings happenings (resumed (some 3) 0 false))
resumed-IsExclusive_example = resumed-IsExclusive happenings (some 3) 0 false

abbrev abandoned_call : Admission
abandoned_call = record {
  max_model_calls = some 5;
  model_calls = 1;
  pending_calls = 1 ∷ [];
  active_calls = [];
  overlap_safe_calls = [];
  pending_record = true;
}

abbrev later : List Happening
later = attempts beside ∷ abandons 1 ∷ acknowledges 2 ∷ attempts alone ∷ []

uncertain-AllDenied_example : AllDenied later abandoned_call
uncertain-AllDenied_example =
    uncertain-AllDenied 1 later abandoned_call
      (record { is_pending = refl; not_active = refl; is_recorded = refl })
      (tt, (tt, ((λ e. omega arith), (tt, tt))))
