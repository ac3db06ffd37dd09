-- ===== src/Dispatch/Partition.antt =====
-- The batches that a list of calls is split into.
use looplet.Prelude.{
  All, All-append, Bool, Bool-cases, List, [], ap, false, inl, inr, refl, sym, true, ◌&&◌, ◌++◌,
  ◌∙◌, ◌∷◌, ◌≡◌,
}
use looplet.Prelude.Dict.{Dict}
use looplet.Types.{ToolCall}
use looplet.Dispatch.{Batch, ToolSpec, add_call, is_safe, partition_calls, partition_onto}

-- the calls of all batches
abbrev pub all_calls : List Batch → List ToolCall
all_calls [] = []
all_calls (batch ∷ batches) = batch.calls ++ all_calls batches

append_assoc : (xs ys zs : List ToolCall) → (xs ++ ys) ++ zs ≡ xs ++ (ys ++ zs)
append_assoc [] ys zs = refl
append_assoc (x ∷ xs) ys zs = ap (λ l. x ∷ l) (append_assoc xs ys zs)

append_nil : (xs : List ToolCall) → xs ++ [] ≡ xs
append_nil [] = refl
append_nil (x ∷ xs) = ap (λ l. x ∷ l) (append_nil xs)

all_calls-add_call :
    (safe : Bool) (call : ToolCall) (batches : List Batch)
    → all_calls (add_call safe call batches) ≡ all_calls batches ++ call ∷ []
unfolding add_call
all_calls-add_call safe call [] = refl
all_calls-add_call safe call (batch ∷ []) = elim (Bool-cases (batch.concurrent && safe)) [
  | inl e ↦ rw e (append_nil _ ∙ ap (λ l. l ++ call ∷ []) (sym (append_nil batch.calls)))
  | inr e ↦ rw e (ap (λ l. l ++ call ∷ []) (sym (append_nil batch.calls)))
]
all_calls-add_call safe call (batch ∷ next ∷ batches) =
    ap (λ l. batch.calls ++ l) (all_calls-add_call safe call (next ∷ batches))
    ∙ sym (append_assoc batch.calls (all_calls (next ∷ batches)) (call ∷ []))

all_calls-partition_onto :
    (tools : Dict ToolSpec) (batches : List Batch) (calls : List ToolCall)
    → all_calls (partition_onto tools batches calls) ≡ all_calls batches ++ calls
unfolding partition_onto
all_calls-partition_onto tools batches [] = sym (append_nil _)
all_calls-partition_onto tools batches (call ∷ calls) =
    all_calls-partition_onto tools (add_call (is_safe tools call) call batches) calls
    ∙ ap (λ l. l ++ calls) (all_calls-add_call (is_safe tools call) call batches)
    ∙ append_assoc (all_calls batches) (call ∷ []) calls

-- A batch that may run concurrently holds safe calls only; any other batch is one unsafe call.
pub data IsProper (tools : Dict ToolSpec) : Batch → Type 0 where
  together :
      (call : ToolCall) (calls : List ToolCall)
      → All (λ c. is_safe tools c ≡ true) (call ∷ calls)
      → IsProper tools (record { concurrent = true; calls = call ∷ calls })
  alone :
      (call : ToolCall)
      → is_safe tools call ≡ false
      → IsProper tools (record { concurrent = false; calls = call ∷ [] })

new_batch-IsProper :
    (tools : Dict ToolSpec) (call : ToolCall)
    → IsProper tools (record { concurrent = is_safe tools call; calls = call ∷ [] })
new_batch-IsProper tools call = elim (Bool-cases (is_safe tools call)) [
  | inl e ↦ rw e (together call [] (e, tt))
  | inr e ↦ rw e (alone call e)
]

joined-IsProper :
    (tools : Dict ToolSpec) (call : ToolCall) (batch : Batch)
    → IsProper tools batch
    → (batch.concurrent && is_safe tools call) ≡ true
    → IsProper tools (record batch { calls = batch.calls ++ call ∷ [] })
joined-IsProper tools call batch (together c cs h) e =
    together c (cs ++ call ∷ [])
      (All-append (λ c. is_safe tools c ≡ true) (c ∷ cs) (call ∷ []) h (e, tt))
joined-IsProper tools call batch (alone c h) e = cc

add_call-IsProper :
    (tools : Dict ToolSpec) (call : ToolCall) (batches : List Batch)
    → All (IsProper tools) batches
    → All (IsProper tools) (add_call (is_safe tools call) call batches)
unfolding add_call
add_call-IsProper tools call [] h = (new_batch-IsProper tools call, tt)
add_call-IsProper tools call (batch ∷ []) h =
    elim (Bool-cases (batch.concurrent && is_safe tools call)) [
      | inl e ↦ rw e (joined-IsProper tools call batch h.0 e, tt)
      | inr e ↦ rw e (h.0, (new_batch-IsProper tools call, tt))
    ]
add_call-IsProper tools call (batch ∷ next ∷ batches) h =
    (h.0, add_call-IsProper tools call (next ∷ batches) h.1)

partition_onto-IsProper :
    (tools : Dict ToolSpec) (batches : List Batch) (calls : List ToolCall)
    → All (IsProper tools) batches
    → All (IsProper tools) (partition_onto tools batches calls)
unfolding partition_onto
partition_onto-IsProper tools batches [] h = h
partition_onto-IsProper tools batches (call ∷ calls) h =
    partition_onto-IsProper tools (add_call (is_safe tools call) call batches) calls
      (add_call-IsProper tools call batches h)

-- Read one after the other, the batches are the calls in their order: none is lost, repeated or
-- moved.
pub all_calls-partition_calls :
    (tools : Dict ToolSpec) (calls : List ToolCall)
    → all_calls (partition_calls tools calls) ≡ calls
unfolding partition_calls
all_calls-partition_calls tools calls = all_calls-partition_onto tools [] calls

-- No batch is empty, a batch that may run concurrently holds only calls of tools that are safe for
-- it, and every other call has a batch of its own.
pub partition_calls-IsProper :
    (tools : Dict ToolSpec) (calls : List ToolCall)
    → All (IsProper tools) (partition_calls tools calls)
unfolding partition_calls
partition_calls-IsProper tools calls = partition_onto-IsProper tools [] calls tt
