-- ===== src/Admission/Overlap.antt =====
-- Which model calls are in flight together.
use looplet.Prelude.{
  Bool, Bool-cases, List, Option, String, [], and_parts, arith, false, if◌then◌else◌, inl, inr,
  length, none, or_else, refl, some, true, ℕ, ◌++◌, ◌+◌, ◌==◌, ◌∷◌, ◌≡◌, ◌≤◌, ◌⊎◌,
}
use looplet.Admission.{
  Admission, Attempt, Happening, abandon, abandons, acknowledge, acknowledges, admit, admit_checked,
  all_in, attempts, check_admission, discard, enter_call, is_nonempty, may_overlap, mem, resumed,
  run_happenings, update_pending_calls,
}

-- Every call in flight is pending, and a pending call is on record; if two are in flight, each of them
-- may overlap with others.
pub record IsExclusive (a : Admission) : Type 0 where
  pub is_recorded : is_nonempty a.pending_calls ≡ true → a.pending_record ≡ true
  pub is_pending : all_in a.active_calls a.pending_calls ≡ true
  pub overlaps : (length a.active_calls ≤ 1) ⊎ (all_in a.active_calls a.overlap_safe_calls ≡ true)

mem-discard : (n m : ℕ) (ns : List ℕ) → mem m (discard n ns) ≡ (if n == m then false else mem m ns)
mem-discard n m [] = ground arith
mem-discard n m (k ∷ ns) = ground (arith, mem-discard n m ns)

mem-append : (n m : ℕ) (ns : List ℕ) → mem n ns ≡ true → mem n (ns ++ m ∷ []) ≡ true
mem-append n m [] e = cc
mem-append n m (k ∷ ns) e = ground (arith, mem-append n m ns)

mem-append_last : (n : ℕ) (ns : List ℕ) → mem n (ns ++ n ∷ []) ≡ true
mem-append_last n [] = ground arith
mem-append_last n (k ∷ ns) = ground (arith, mem-append_last n ns)

-- what is in a set stays in it when another number comes in, and leaves with its number
all_in-append : (ns ms : List ℕ) (m : ℕ) → all_in ns ms ≡ true → all_in ns (ms ++ m ∷ []) ≡ true
all_in-append [] ms m e = refl
all_in-append (n ∷ ns) ms m e =
    let (here, rest) = and_parts (mem n ms) (all_in ns ms) e in
    rw (mem-append n m ms here, all_in-append ns ms m rest)

all_in-cons : (ns ms : List ℕ) (m : ℕ) → all_in ns ms ≡ true → all_in ns (m ∷ ms) ≡ true
all_in-cons [] ms m e = refl
all_in-cons (n ∷ ns) ms m e =
    let (here, rest) = and_parts (mem n ms) (all_in ns ms) e in
    let ih = all_in-cons ns ms m rest in ground arith

all_in-discard_left :
    (n : ℕ) (ns ms : List ℕ) → all_in ns ms ≡ true → all_in (discard n ns) ms ≡ true
all_in-discard_left n [] ms e = refl
all_in-discard_left n (k ∷ ns) ms e =
    let (here, rest) = and_parts (mem k ms) (all_in ns ms) e in
    let ih = all_in-discard_left n ns ms rest in ground arith

all_in-discard :
    (n : ℕ) (ns ms : List ℕ) → all_in ns ms ≡ true → all_in (discard n ns) (discard n ms) ≡ true
all_in-discard n [] ms e = refl
all_in-discard n (k ∷ ns) ms e =
    let (here, rest) = and_parts (mem k ms) (all_in ns ms) e in
    let ih = all_in-discard n ns ms rest in ground (arith, mem-discard n k ms)

length-discard : (n : ℕ) (ns : List ℕ) → length (discard n ns) ≤ length ns
length-discard n [] = omega arith
length-discard n (k ∷ ns) = ground (arith, length-discard n ns)

all_in-empty : (ns : List ℕ) → all_in ns [] ≡ true → length ns ≤ 0
all_in-empty [] e = omega arith
all_in-empty (n ∷ ns) e = cc

-- if none is pending, none is in flight
idle : (ns ms : List ℕ) → is_nonempty ms ≡ false → all_in ns ms ≡ true → length ns ≤ 0
idle ns [] h e = all_in-empty ns e
idle ns (m ∷ ms) h e = cc

overlaps-discard :
    (n : ℕ) (ns ms : List ℕ)
    → (length ns ≤ 1) ⊎ (all_in ns ms ≡ true)
    → (length (discard n ns) ≤ 1) ⊎ (all_in (discard n ns) (discard n ms) ≡ true)
overlaps-discard n ns ms (inl h) = inl (omega (arith, length-discard n ns))
overlaps-discard n ns ms (inr e) = inr (all_in-discard n ns ms e)

abandon-IsExclusive : (n : ℕ) (a : Admission) → IsExclusive a → IsExclusive (abandon n a)
unfolding abandon
abandon-IsExclusive n a ex = record {
  is_recorded = ex.is_recorded;
  is_pending = all_in-discard_left n a.active_calls a.pending_calls ex.is_pending;
  overlaps = overlaps-discard n a.active_calls a.overlap_safe_calls ex.overlaps;
}

acknowledge-IsExclusive : (n : ℕ) (a : Admission) → IsExclusive a → IsExclusive (acknowledge n a)
unfolding acknowledge update_pending_calls
acknowledge-IsExclusive n a ex = record {
  is_recorded = λ e. e;
  is_pending = all_in-discard n a.active_calls a.pending_calls ex.is_pending;
  overlaps = overlaps-discard n a.active_calls a.overlap_safe_calls ex.overlaps;
}

-- an attempt passes only alone, or as one of calls that may all overlap
passed :
    (t : Attempt) (a : Admission)
    → check_admission t a ≡ none
    → IsExclusive a
    → (length a.active_calls ≤ 0)
      ⊎ ((t.allow_inflight ≡ true) × (all_in a.active_calls a.overlap_safe_calls ≡ true))
unfolding check_admission may_overlap
passed t a e ex = elim (Bool-cases a.pending_record) [
  | inl p ↦ inr (ground arith)
  | inr p ↦ elim (Bool-cases (is_nonempty a.pending_calls)) [
    | inl some_pending ↦ let r = ex.is_recorded some_pending in absurd (cc)
    | inr none_pending ↦ inl (idle a.active_calls a.pending_calls none_pending ex.is_pending)
  ]
]

is_nonempty-append : (ns : List ℕ) (n : ℕ) → is_nonempty (ns ++ n ∷ []) ≡ true
is_nonempty-append [] n = refl
is_nonempty-append (m ∷ ns) n = refl

overlaps-enter :
    (allow : Bool) (n : ℕ) (ns ms : List ℕ)
    → (length ns ≤ 0) ⊎ ((allow ≡ true) × (all_in ns ms ≡ true))
    → (length (n ∷ ns) ≤ 1) ⊎ (all_in (n ∷ ns) (if allow then n ∷ ms else ms) ≡ true)
overlaps-enter allow n ns ms (inl h) = inl (omega arith)
overlaps-enter allow n ns ms (inr (e, h)) = inr (let rest = all_in-cons ns ms n h in ground arith)

enter_call-IsExclusive :
    (t : Attempt) (a : Admission)
    → check_admission t a ≡ none
    → IsExclusive a
    → IsExclusive (enter_call t.allow_inflight a)
unfolding enter_call update_pending_calls
enter_call-IsExclusive t a e ex =
    let n = a.model_calls + 1 in
    record {
      is_recorded = λ h. h;
      is_pending =
          rw (mem-append_last n a.pending_calls)
            (all_in-append a.active_calls a.pending_calls n ex.is_pending);
      overlaps =
          overlaps-enter t.allow_inflight n a.active_calls a.overlap_safe_calls (passed t a e ex);
    }

admit_checked-IsExclusive :
    (t : Attempt) (a : Admission) (o : Option String)
    → check_admission t a ≡ o
    → IsExclusive a
    → IsExclusive (admit_checked t a o).1
unfolding admit_checked
admit_checked-IsExclusive t a (some reason) e ex = ex
admit_checked-IsExclusive t a none e ex =
    let ex' = enter_call-IsExclusive t a e ex in
    elim (Bool-cases (or_else t.checkpoint true)) [
      | inl c ↦ rw (admit_checked, c) ex'
      | inr c ↦ rw (admit_checked, c) (abandon-IsExclusive (a.model_calls + 1) _ ex')
    ]

run_happenings-IsExclusive :
    (hs : List Happening) (a : Admission) → IsExclusive a → IsExclusive (run_happenings hs a)
unfolding admit
run_happenings-IsExclusive [] a ex = ex
run_happenings-IsExclusive (attempts t ∷ hs) a ex =
    run_happenings-IsExclusive hs _ (admit_checked-IsExclusive t a (check_admission t a) refl ex)
run_happenings-IsExclusive (abandons n ∷ hs) a ex =
    run_happenings-IsExclusive hs _ (abandon-IsExclusive n a ex)
run_happenings-IsExclusive (acknowledges n ∷ hs) a ex =
    run_happenings-IsExclusive hs _ (acknowledge-IsExclusive n a ex)

-- However attempts, abandoned and acknowledged calls follow in a run, fresh or resumed, every call in
-- flight is pending and on record, and if two calls are in flight, each call in flight is one that was
-- admitted as safe to overlap with others.
pub resumed-IsExclusive :
    (hs : List Happening) (limit : Option ℕ) (calls : ℕ) (was_pending : Bool)
    → IsExclusive (run_happenings hs (resumed limit calls was_pending))
unfolding resumed
resumed-IsExclusive hs limit calls was_pending =
    run_happenings-IsExclusive hs _
      (record { is_recorded = λ e. cc; is_pending = refl; overlaps = inl (omega arith) })
