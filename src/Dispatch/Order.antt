-- ===== src/Dispatch/Order.antt =====
-- The results of a batch dispatch and the calls that they answer.
use looplet.Prelude.{
  ==_iff, Bool-cases, List, Option, Option-cases, [], ap, arith, drop, false, inl, inr, leb, length,
  length-append, length-drop, length-take, ltb, map, min, none, not, refl, some, subst, suc, sym,
  take, true, zero, ℕ, ◌&&◌, ◌++◌, ◌+◌, ◌==◌, ◌∙◌, ◌∷◌, ◌≡◌, ◌≤◌,
}
use looplet.Prelude.Dict.{Dict}
use looplet.Prelude.Places.{get_elem?}
use looplet.Value.{ℤ}
use looplet.Types.{ToolCall, ToolResult}
use looplet.Dispatch.{
  Batch, Contexts, Executor, collect_results, ToolSpec, dispatch_batch, dispatch_concurrent_batch,
  dispatch_each, each, extend, jobs_of, mismatched, no_workers, partition_calls, run_batch,
  run_batches, shared, slice, zip,
}
use looplet.Dispatch.Partition.{all_calls, all_calls-partition_calls}

-- The lists have one length, and each result answers the job at its place.
abbrev pub Pointwise : {A B : Type 0} → (A → B → Type 0) → List A → List B → Type 0
Pointwise R [] [] = Unit
Pointwise R [] (y ∷ ys) = ⊥
Pointwise R (x ∷ xs) [] = ⊥
Pointwise R (x ∷ xs) (y ∷ ys) = R x y × Pointwise R xs ys

Pointwise-append :
    {A B : Type 0}
    → (R : A → B → Type 0) (xs xs' : List A) (ys ys' : List B) → Pointwise R xs ys
    → Pointwise R xs' ys'
    → Pointwise R (xs ++ xs') (ys ++ ys')
Pointwise-append R [] xs' [] ys' h h' = h'
Pointwise-append R [] xs' (y ∷ ys) ys' h h' = elim h [ ]
Pointwise-append R (x ∷ xs) xs' [] ys' h h' = elim h [ ]
Pointwise-append R (x ∷ xs) xs' (y ∷ ys) ys' h h' = (h.0, Pointwise-append R xs xs' ys ys' h.1 h')

-- there are at least as many contexts as calls
abbrev Enough : {C : Type 0} → ℕ → Contexts C → Type 0
Enough n (shared c) = Unit
Enough n (each cs) = n ≤ length cs

-- the contexts from a place on
abbrev from : {C : Type 0} → ℕ → Contexts C → Contexts C
from n (shared c) = shared c
from n (each cs) = each (drop n cs)

drop-nil : {A : Type 0} → (n : ℕ) → drop {A = A} n [] ≡ []
drop-nil zero = refl
drop-nil (suc n) = refl

sum_suc : (m n : ℕ) → suc m + n ≡ suc (m + n)
sum_suc m n = omega arith

zero_plus : (n : ℕ) → 0 + n ≡ n
zero_plus n = omega arith

no_room : (n : ℕ) → suc n ≤ 0 → ⊥
no_room n h = omega arith

drop_later : {A : Type 0} → (m n : ℕ) (xs : List A) → drop (m + n) xs ≡ drop n (drop m xs)
drop_later zero n xs = ap (λ k. drop k xs) (omega arith)
drop_later (suc m) n [] =
    ap (λ k. drop k []) (sum_suc m n) ∙ drop-nil (suc (m + n)) ∙ sym (drop-nil n)
drop_later (suc m) n (x ∷ xs) = ap (λ k. drop k (x ∷ xs)) (sum_suc m n) ∙ drop_later m n xs

from_later : {C : Type 0} → (m n : ℕ) (ctx : Contexts C) → from (m + n) ctx ≡ from n (from m ctx)
from_later m n (shared c) = refl
from_later m n (each cs) = ap each (drop_later m n cs)

zip-append :
    {B : Type 0}
    → (xs ys : List ToolCall) (cs : List B) → length xs ≤ length cs
    → zip (xs ++ ys) cs ≡ zip xs (take (length xs) cs) ++ zip ys (drop (length xs) cs)
zip-append [] ys cs h = refl
zip-append (x ∷ xs) ys [] h = elim (no_room (length xs) h) [ ]
zip-append (x ∷ xs) ys (c ∷ cs) h = ap (λ l. (x, c) ∷ l) (zip-append xs ys cs (omega arith))

map-append :
    {B : Type 0}
    → (f : ToolCall → B) (xs ys : List ToolCall) → map f (xs ++ ys) ≡ map f xs ++ map f ys
map-append f [] ys = refl
map-append f (x ∷ xs) ys = ap (λ l. f x ∷ l) (map-append f xs ys)

jobs_of-append :
    {C : Type 0}
    → (xs ys : List ToolCall) (ctx : Contexts C) → Enough (length xs) ctx
    → jobs_of (xs ++ ys) ctx
      ≡ jobs_of xs (slice 0 (length xs) ctx) ++ jobs_of ys (from (length xs) ctx)
jobs_of-append xs ys (shared c) h = map-append (λ call. (call, c)) xs ys
jobs_of-append xs ys (each cs) h = zip-append xs ys cs h

all_taken : (n k : ℕ) → n ≤ k → not (min n k == n) ≡ false
all_taken n k h = let same : (min n k == n) ≡ true = (==_iff (min n k) n).1 (omega arith) in rw same

slice-mismatched :
    {C : Type 0}
    → (calls : List ToolCall) (ctx : Contexts C) → Enough (length calls) ctx
    → mismatched calls (slice 0 (length calls) ctx) ≡ false
slice-mismatched calls (shared c) h = refl
slice-mismatched calls (each cs) h =
    rw (length-take (length calls) cs) (all_taken (length calls) (length cs) h)

slice-from :
    {C : Type 0}
    → (offset n : ℕ) (ctx : Contexts C) → slice offset n ctx ≡ slice 0 n (from offset ctx)
slice-from offset n (shared c) = refl
slice-from offset n (each cs) = refl

-- enough contexts for two lists are enough for the first, and what is left is enough for the second
Enough-append :
    {C : Type 0}
    → (xs ys : List ToolCall) (ctx : Contexts C) → Enough (length (xs ++ ys)) ctx
    → Enough (length xs) ctx × Enough (length ys) (from (length xs) ctx)
Enough-append xs ys (shared c) h = (tt, tt)
Enough-append xs ys (each cs) h = (
  omega (arith, length-append xs ys, h),
  omega (arith, length-append xs ys, length-drop (length xs) cs, h),
)

from_start : {C : Type 0} → (ctx : Contexts C) → from 0 ctx ≡ ctx
from_start (shared c) = refl
from_start (each cs) = refl

matched-Enough :
    {C : Type 0}
    → (calls : List ToolCall) (ctx : Contexts C) → mismatched calls ctx ≡ false
    → Enough (length calls) ctx
matched-Enough calls (shared c) h = tt
matched-Enough calls (each cs) h = ground (arith, h, ==_iff (length cs) (length calls))

-- the results are there, and `R` holds of them
abbrev pub Returns :
    {W : Type 0} → (List ToolResult → Type 0) → Option (List ToolResult × W) → Type 0
Returns R none = ⊥
Returns R (some (results, w)) = R results

-- The collected results answer the jobs when each future answers its own.
collect_results-Pointwise :
    {A : Type 0}
    → (R : A → ToolResult → Type 0) (result : ℕ → ToolResult) (jobs : List A) (k : ℕ)
    → ((i : ℕ) (job : A) → get_elem? jobs i ≡ some job → R job (result (k + i)))
    → Pointwise R jobs (collect_results result k jobs)
unfolding collect_results
collect_results-Pointwise R result [] k h = tt
collect_results-Pointwise R result (job ∷ jobs) k h = (
  subst (λ n. R job (result n)) (omega arith) (h 0 job refl),
  collect_results-Pointwise R result jobs (suc k)
      (λ i other e. subst (λ n. R other (result n)) (omega arith) (h (suc i) other e)),
)

module _ {W C : Type 0} (executor : Executor W C) (tools : Dict ToolSpec)
    (Answers : ToolCall × Option C → ToolResult → Type 0)
    (dispatched : (call : ToolCall) (ctx : Option C) (w : W)
      → Answers (call, ctx) (executor.dispatch call ctx w).0)
    (pooled : (n : ℕ) (jobs : List (ToolCall × Option C)) (w : W) (i : ℕ)
        (job : ToolCall × Option C)
      → get_elem? jobs i ≡ some job
      → Answers job ((executor.pool n jobs w).0 i)) where
  dispatch_each-Pointwise :
      (jobs : List (ToolCall × Option C)) (w : W)
      → Pointwise Answers jobs (dispatch_each executor tools jobs w).0
  unfolding dispatch_each
  dispatch_each-Pointwise [] w = tt
  dispatch_each-Pointwise ((call, ctx) ∷ jobs) w =
      (dispatched call ctx w, dispatch_each-Pointwise jobs (executor.dispatch call ctx w).1)

  pool-Pointwise :
      (n : ℕ) (jobs : List (ToolCall × Option C)) (w : W)
      → Pointwise Answers jobs (collect_results (executor.pool n jobs w).0 0 jobs)
  pool-Pointwise n jobs w =
      let (result, _) = executor.pool n jobs w in
      collect_results-Pointwise Answers result jobs 0
        (λ i job e. rw (zero_plus i) (pooled n jobs w i job e))

  dispatch_concurrent_batch-Pointwise :
      (calls : List ToolCall) (ctx : Contexts C) (max_workers : Option ℤ) (w : W)
      → mismatched calls ctx ≡ false
      → Returns
          (Pointwise Answers (jobs_of calls ctx))
          (dispatch_concurrent_batch executor tools calls ctx max_workers w)
  unfolding dispatch_concurrent_batch
  dispatch_concurrent_batch-Pointwise calls ctx max_workers w h =
      elim (Bool-cases (leb (length calls) 1)) [
        | inl e ↦
            rw (dispatch_concurrent_batch, h, e) (dispatch_each-Pointwise (jobs_of calls ctx) w)
        | inr e ↦ rw (dispatch_concurrent_batch, h, e) (pool-Pointwise _ (jobs_of calls ctx) w)
      ]

  run_batch-Pointwise :
      (batch : Batch) (ctx : Contexts C) (max_workers : Option ℤ) (w : W)
      → mismatched batch.calls ctx ≡ false
      → Returns
          (Pointwise Answers (jobs_of batch.calls ctx))
          (run_batch executor tools batch ctx max_workers w)
  unfolding run_batch
  run_batch-Pointwise batch ctx max_workers w h =
      elim (Bool-cases (batch.concurrent && ltb 1 (length batch.calls))) [
        | inl e ↦ rw e (dispatch_concurrent_batch-Pointwise batch.calls ctx max_workers w h)
        | inr e ↦ rw e (dispatch_each-Pointwise (jobs_of batch.calls ctx) w)
      ]

  no_jobs : (ctx : Contexts C) → Pointwise Answers (jobs_of [] ctx) []
  no_jobs (shared c) = tt
  no_jobs (each cs) = tt

  extend-Pointwise :
      (jobs later : List (ToolCall × Option C)) (results : List ToolResult)
      (o : Option (List ToolResult × W))
      → Pointwise Answers jobs results
      → Returns (Pointwise Answers later) o
      → Returns (Pointwise Answers (jobs ++ later)) (extend executor tools results o)
  unfolding extend
  extend-Pointwise jobs later results none h h' = elim h' [ ]
  extend-Pointwise jobs later results (some (more, w)) h h' =
      Pointwise-append Answers jobs later results more h h'

  run_batches-Pointwise :
      (batches : List Batch) (offset : ℕ) (ctx : Contexts C) (max_workers : Option ℤ) (w : W)
      → Enough (length (all_calls batches)) (from offset ctx)
      → Returns
          (Pointwise Answers (jobs_of (all_calls batches) (from offset ctx)))
          (run_batches executor tools batches offset ctx max_workers w)
  unfolding run_batches
  run_batches-Pointwise [] offset ctx max_workers w h = no_jobs (from offset ctx)
  run_batches-Pointwise (batch ∷ batches) offset ctx max_workers w h =
      let calls = all_calls batches in
      let n = length batch.calls in
      let (here, later) = Enough-append batch.calls calls (from offset ctx) h in
      let ran =
        run_batch-Pointwise batch (slice 0 n (from offset ctx)) max_workers w
          (slice-mismatched batch.calls (from offset ctx) here) in
      rw
        (
          run_batches,
          slice-from offset n ctx,
          jobs_of-append batch.calls calls (from offset ctx) here,
        )
        (elim (Option-cases
          (run_batch executor tools batch (slice 0 n (from offset ctx)) max_workers w)) [
            | inl e ↦ elim (rw e at ran) [ ]
            | inr (r, e) ↦ rw e (
                extend-Pointwise _ _ r.0
                  (run_batches executor tools batches (offset + n) ctx max_workers r.1)
                  (rw e at ran)
                  (rw (← from_later offset n ctx) (
                    run_batches-Pointwise batches (offset + n) ctx max_workers r.1
                      (rw (from_later offset n ctx) later))))
          ])

-- Every call gets its own result: a batch dispatch returns one result for each call, in the order of
-- the calls, and the result at a place answers the call and the context at that place. It holds
-- whatever the batches, when the number of workers is positive and a sequence of contexts has the
-- length of the calls, if a single dispatch answers its call and the pool gives each future a result
-- that answers the job it was submitted with, in whatever order it runs them.
pub dispatch_batch-Pointwise :
    {W C : Type 0}
    → (executor : Executor W C) (tools : Dict ToolSpec)
      (Answers : ToolCall × Option C → ToolResult → Type 0)
    → ((call : ToolCall) (ctx : Option C) (w : W)
        → Answers (call, ctx) (executor.dispatch call ctx w).0)
    → ((n : ℕ) (jobs : List (ToolCall × Option C)) (w : W) (i : ℕ) (job : ToolCall × Option C)
        → get_elem? jobs i ≡ some job
        → Answers job ((executor.pool n jobs w).0 i))
    → (calls : List ToolCall) (ctx : Contexts C) (max_workers : Option ℤ) (w : W)
    → no_workers max_workers ≡ false
    → mismatched calls ctx ≡ false
    → Returns
        (Pointwise Answers (jobs_of calls ctx))
        (dispatch_batch executor tools calls ctx max_workers w)
unfolding dispatch_batch
dispatch_batch-Pointwise executor tools Answers one many [] ctx max_workers w n m =
    no_jobs executor tools Answers one many ctx
dispatch_batch-Pointwise executor tools Answers one many (call ∷ calls) ctx max_workers w n m =
    let batches = partition_calls tools (call ∷ calls) in
    let same = all_calls-partition_calls tools (call ∷ calls) in
    let enough : Enough (length (all_calls batches)) (from 0 ctx) =
      rw (same, from_start ctx) (matched-Enough (call ∷ calls) ctx m) in
    rw (n, m)
      (rw (same, from_start ctx) at
        (run_batches-Pointwise executor tools Answers one many batches 0 ctx max_workers w enough))
