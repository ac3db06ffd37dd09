-- ===== src/Admission/Budget.antt =====
-- How many model calls a run makes.
use looplet.Prelude.{
  Bool-cases, List, Option, String, [], arith, false, inl, inr, max, none, or_else, refl, some,
  subst, sym, true, ℕ, ◌+◌, ◌∷◌, ◌≡◌, ◌≤◌,
}
use looplet.Admission.{
  Admission, Admitted, Attempt, Happening, abandon, abandons, acknowledge, acknowledges, admit,
  admit_checked, attempts, check_admission, denied, enter_call, granted, is_spent, run_happenings,
  save_failed, update_pending_calls,
}

-- the calls that reach the backend, with the number of an attempt whose save raised
abbrev pub entered : Admitted → ℕ
entered (denied reason) = 0
entered save_failed = 1
entered (granted n) = 1

abbrev pub entries : List Happening → Admission → ℕ
entries [] a = 0
entries (attempts t ∷ hs) a = entered (admit t a).0 + entries hs (admit t a).1
entries (abandons n ∷ hs) a = entries hs (abandon n a)
entries (acknowledges n ∷ hs) a = entries hs (acknowledge n a)

-- the ceiling is not passed, or was passed before
abbrev pub IsWithin : ℕ → Option ℕ → ℕ → Type 0
IsWithin before none calls = Unit {0}
IsWithin before (some limit) calls = calls ≤ max before limit

check-unspent :
    (t : Attempt) (a : Admission)
    → check_admission t a ≡ none
    → is_spent a.max_model_calls a.model_calls ≡ false
unfolding check_admission
check-unspent t a e = ground arith

admit_checked-counts :
    (t : Attempt) (a : Admission) (o : Option String)
    → ((admit_checked t a o).1.model_calls ≡ a.model_calls + entered (admit_checked t a o).0)
      × ((admit_checked t a o).1.max_model_calls ≡ a.max_model_calls)
unfolding admit_checked enter_call update_pending_calls abandon
admit_checked-counts t a (some reason) = (omega arith, refl)
admit_checked-counts t a none = elim (Bool-cases (or_else t.checkpoint true)) [
  | inl e ↦ rw (admit_checked, e) (refl, refl)
  | inr e ↦ rw (admit_checked, e) (refl, refl)
]

IsWithin-step :
    (before : ℕ) (limit : Option ℕ) (calls : ℕ)
    → is_spent limit calls ≡ false
    → IsWithin before limit calls
    → IsWithin before limit (calls + 1)
IsWithin-step before none calls e h = tt
IsWithin-step before (some limit) calls e h = ground arith

admit-IsWithin :
    (before : ℕ) (t : Attempt) (a : Admission) (o : Option String)
    → check_admission t a ≡ o
    → IsWithin before a.max_model_calls a.model_calls
    → IsWithin before a.max_model_calls (admit_checked t a o).1.model_calls
unfolding admit_checked enter_call update_pending_calls abandon
admit-IsWithin before t a (some reason) e h = h
admit-IsWithin before t a none e h =
    let next = IsWithin-step before a.max_model_calls a.model_calls (check-unspent t a e) h in
    elim (Bool-cases (or_else t.checkpoint true)) [
      | inl c ↦ rw (admit_checked, c) next
      | inr c ↦ rw (admit_checked, c) next
    ]

counted-step : (m m' e calls k : ℕ) → m ≡ m' + e → m' ≡ calls + k → m ≡ calls + (k + e)
counted-step m m' e calls k p q = omega arith

entries-from :
    (hs : List Happening) (a : Admission) (before : ℕ)
    → IsWithin before a.max_model_calls a.model_calls
    → ((run_happenings hs a).model_calls ≡ a.model_calls + entries hs a)
      × IsWithin before a.max_model_calls (run_happenings hs a).model_calls
unfolding admit abandon acknowledge update_pending_calls
entries-from [] a before h = (omega arith, h)
entries-from (attempts t ∷ hs) a before h =
    let o = check_admission t a in
    let (counts, same) = admit_checked-counts t a o in
    let now = admit-IsWithin before t a o refl h in
    let (total, within) =
      entries-from hs (admit_checked t a o).1 before (
        subst (λ limit. IsWithin before limit (admit_checked t a o).1.model_calls) (sym same)
          now) in
    (
      counted-step _ _ _ _ _ total counts,
      subst (λ limit. IsWithin before limit (run_happenings hs (admit_checked t a o).1).model_calls)
          same within,
    )
entries-from (abandons n ∷ hs) a before h = entries-from hs (abandon n a) before h
entries-from (acknowledges n ∷ hs) a before h = entries-from hs (acknowledge n a) before h

IsWithin-start : (limit : Option ℕ) (calls : ℕ) → IsWithin calls limit calls
IsWithin-start none calls = tt
IsWithin-start (some limit) calls = omega arith

-- Whatever happens in a run, every call that is entered is counted, and no more are entered than the
-- ceiling leaves: with a ceiling, the count ends at the ceiling or at what it was before, if that is more.
-- A call that is abandoned, or whose save raised, is counted as well.
pub entries-IsWithin :
    (hs : List Happening) (a : Admission)
    → ((run_happenings hs a).model_calls ≡ a.model_calls + entries hs a)
      × IsWithin a.model_calls a.max_model_calls (run_happenings hs a).model_calls
entries-IsWithin hs a =
    entries-from hs a a.model_calls (IsWithin-start a.max_model_calls a.model_calls)
