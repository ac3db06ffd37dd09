-- ===== src/Admission/Uncertain.antt =====
-- A model call whose answer was never acknowledged.
use looplet.Prelude.{
  ==_iff, All, Bool-cases, List, [], and_parts, arith, false, inl, inr, refl, some, subst, true, ℕ,
  ◌==◌, ◌∙◌, ◌∷◌, ◌≡◌,
}
use looplet.Admission.{
  Admission, Attempt, Happening, abandon, abandons, acknowledge, acknowledges, admit, admit_checked,
  all_in, attempts, check_admission, denied, discard, is_nonempty, may_overlap, mem, same_numbers,
  update_pending_calls,
}

-- The call is pending, and on record, but no longer in flight.
pub record IsUncertain (n : ℕ) (a : Admission) : Type 0 where
  pub is_pending : mem n a.pending_calls ≡ true
  pub not_active : mem n a.active_calls ≡ false
  pub is_recorded : a.pending_record ≡ true

-- none of the calls that are acknowledged is this one
abbrev pub Unacknowledged : ℕ → Happening → Type 0
Unacknowledged n (attempts t) = Unit {0}
Unacknowledged n (abandons m) = Unit {0}
Unacknowledged n (acknowledges m) = ((m ≡ n) → ⊥)

-- every attempt is turned away for the uncertain call
abbrev pub AllDenied : List Happening → Admission → Type 0
AllDenied [] a = Unit {0}
AllDenied (attempts t ∷ hs) a =
    ((admit t a).0 ≡ denied "unsupported_context") × AllDenied hs (admit t a).1
AllDenied (abandons n ∷ hs) a = AllDenied hs (abandon n a)
AllDenied (acknowledges n ∷ hs) a = AllDenied hs (acknowledge n a)

mem-all_in : (n : ℕ) (ns ms : List ℕ) → all_in ns ms ≡ true → mem n ns ≡ true → mem n ms ≡ true
mem-all_in n [] ms e h = cc
mem-all_in n (k ∷ ns) ms e h =
    let (here, rest) = and_parts (mem k ms) (all_in ns ms) e in
    elim (Bool-cases (k == n)) [
      | inl s ↦ subst (λ j. mem j ms ≡ true) ((==_iff k n).0 s) here
      | inr s ↦ mem-all_in n ns ms rest (ground arith)
    ]

mem-discard_ne : (n m : ℕ) (ns : List ℕ) → ((m ≡ n) → ⊥) → mem n (discard m ns) ≡ mem n ns
mem-discard_ne n m [] h = refl
mem-discard_ne n m (k ∷ ns) h = ground (arith, mem-discard_ne n m ns)

mem-discard-false : (n m : ℕ) (ns : List ℕ) → mem n ns ≡ false → mem n (discard m ns) ≡ false
mem-discard-false n m [] e = refl
mem-discard-false n m (k ∷ ns) e = ground (arith, mem-discard-false n m ns)

nonempty_of_mem : (n : ℕ) (ns : List ℕ) → mem n ns ≡ true → is_nonempty ns ≡ true
nonempty_of_mem n [] e = cc
nonempty_of_mem n (k ∷ ns) e = refl

apart : (n : ℕ) (ns ms : List ℕ) → mem n ns ≡ false → mem n ms ≡ true → same_numbers ns ms ≡ false
apart n ns ms out here = elim (Bool-cases (same_numbers ns ms)) [
  | inr e ↦ e
  | inl e ↦
      let (to, from) = and_parts (all_in ns ms) (all_in ms ns) e in
      let also = mem-all_in n ms ns from here in cc
]

refused :
    (n : ℕ) (t : Attempt) (a : Admission)
    → IsUncertain n a
    → check_admission t a ≡ some "unsupported_context"
unfolding check_admission may_overlap
refused n t a u =
    let different = apart n a.active_calls a.pending_calls u.not_active u.is_pending in
    let on_record = u.is_recorded in ground arith

-- A call that was started and abandoned blocks the run: as long as it is not acknowledged, every
-- attempt of a further call is denied, whatever else happens and whether or not the call may overlap.
pub uncertain-AllDenied :
    (n : ℕ) (hs : List Happening) (a : Admission)
    → IsUncertain n a
    → All (Unacknowledged n) hs
    → AllDenied hs a
unfolding admit admit_checked abandon acknowledge update_pending_calls
uncertain-AllDenied n [] a u h = tt
uncertain-AllDenied n (attempts t ∷ hs) a u (_, h) =
    rw (refused n t a u) (refl, uncertain-AllDenied n hs a u h)
uncertain-AllDenied n (abandons m ∷ hs) a u (_, h) =
    uncertain-AllDenied n hs (abandon m a)
      (record {
        is_pending = u.is_pending;
        not_active = mem-discard-false n m a.active_calls u.not_active;
        is_recorded = u.is_recorded;
      })
      h
uncertain-AllDenied n (acknowledges m ∷ hs) a u (other, h) =
    let still = mem-discard_ne n m a.pending_calls other ∙ u.is_pending in
    uncertain-AllDenied n hs (acknowledge m a)
      (record {
        is_pending = still;
        not_active = mem-discard-false n m a.active_calls u.not_active;
        is_recorded = nonempty_of_mem n _ still;
      })
      h
