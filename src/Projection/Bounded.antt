-- ===== src/Projection/Bounded.antt =====
-- A batch of results is bounded, and the loop over it ends.
use looplet.Prelude.{
  Bool, Bool-cases, List, Option, Option-cases, [], ap, arith, false, if◌then◌else◌, inl, inr, leb,
  length, ltb, map, none, refl, some, some-injective, subst, suc, true, zero, ℕ, ◌+◌, ◌<◌, ◌∷◌, ◌≡◌,
  ◌≤◌, ◌⊎◌,
}
use looplet.Prelude.Places.{get_elem?, get_elem?-map, length-set, set-map, sum, sum-set}
use looplet.Types.{ToolResult}
use looplet.Projection.{Projected, Renderer, context_overflow_error, value_error, view}
use looplet.Projection.Batch.{
  Bounded, Shrunk, Slot, bound_result_batch, bound_round, bound_slots, bounded, given_up,
  if_smaller, invalid, largest, out_of_fuel, overflow, pick, retry, shrink, slot_size, slots_of,
  smaller, total_size, value_failure,
}

module _ (c : Renderer) where
  abbrev eligible_of : Slot → ℕ
  eligible_of s = if s.1 then 1 else 0

  abbrev measure : List Slot → ℕ
  measure slots = total_size c slots + sum (map eligible_of slots)

  pick-lem :
      (e : Bool) (r : ToolResult) (o : Option (ℕ × ToolResult)) (i : ℕ) (q : ToolResult)
      → pick c e r o ≡ some (i, q)
      → ((i ≡ 0) × (q ≡ r) × (e ≡ true)) ⊎ ((j : ℕ) × (i ≡ suc j) × (o ≡ some (j, q)))
  pick-lem false r none i q h = cc
  pick-lem false r (some (j, p)) i q h = inr (j, ground arith, ground arith)
  pick-lem true r none i q h = inl (ground arith, ground arith, refl)
  pick-lem true r (some (j, p)) i q h = elim (Bool-cases (leb (c.size p) (c.size r))) [
    | inl e ↦ inl (ground arith, ground arith, refl)
    | inr e ↦ inr (j, ground arith, ground arith)
  ]

  largest-at :
      (slots : List Slot) (i : ℕ) (q : ToolResult)
      → largest c slots ≡ some (i, q)
      → get_elem? slots i ≡ some (q, true)
  unfolding largest
  largest-at [] i q h = cc
  largest-at ((r, e) ∷ slots) i q h = elim (pick-lem e r (largest c slots) i q h) [
    | inl (z, same, on) ↦ rw (z, same, on) refl
    | inr (j, z, there) ↦ rw z (largest-at slots j q there)
  ]

  if_smaller-lem :
      (r q : ToolResult) (p : Projected) → if_smaller c r p ≡ smaller q → c.size q < c.size r
  if_smaller-lem r q (view t) h = elim (Bool-cases (leb (c.size r) (c.size t))) [
    | inl e ↦ let lost : ◌≡◌ {A = Shrunk} given_up (smaller q) = rw e at h in absurd (cc)
    | inr e ↦
        let same : ◌≡◌ {A = Shrunk} (smaller t) (smaller q) = rw e at h in
        let eq : t ≡ q = cc in subst (λ s. c.size s < c.size r) eq (ground arith)
  ]
  if_smaller-lem r q value_error h = cc
  if_smaller-lem r q context_overflow_error h = cc

  retry-lem : (r q : ToolResult) (p : Projected) → retry c r p ≡ smaller q → c.size q < c.size r
  retry-lem r q (view t) h = if_smaller-lem r q (view t) h
  retry-lem r q value_error h = cc
  retry-lem r q context_overflow_error h = if_smaller-lem r q _ h

  -- each round lowers the sum of the sizes and of the results that may still be tried
  round-lem :
      (slots next : List Slot) (i : ℕ) (r : ToolResult) (s : Shrunk)
      → shrink c r ≡ s
      → get_elem? slots i ≡ some (r, true)
      → bound_round c slots i r s ≡ some next
      → measure next < measure slots
  unfolding bound_round shrink
  round-lem slots next i r (smaller q) shrunk at h =
      let less = retry-lem r q _ shrunk in
      let (size_step, a) =
        sum-set (map (slot_size c) slots) i (c.size r) (c.size q)
          (get_elem?-map (slot_size c) slots i (r, true) at) in
      let (tries_step, b) =
        sum-set (map eligible_of slots) i 1 1 (get_elem?-map eligible_of slots i (r, true) at) in
      let sizes = ap sum (set-map (slot_size c) slots i (q, true)) in
      let tries = ap sum (set-map eligible_of slots i (q, true)) in
      subst (λ t. measure t < measure slots) (some-injective _ _ h)
        (lower _ _ _ _ _ _ _ _ sizes tries size_step tries_step less)
    where
      lower :
          (s' s t' t a' a b' b : ℕ)
          → s' ≡ s
          → t' ≡ t
          → s' + a ≡ b' + a'
          → t' + 1 ≡ b + 1
          → a' < a
          → s + t < b' + b
      lower s' s t' t a' a b' b e e' h' k l = omega arith
  round-lem slots next i r given_up shrunk at h =
      let (size_step, a) =
        sum-set (map (slot_size c) slots) i (c.size r) (c.size r)
          (get_elem?-map (slot_size c) slots i (r, true) at) in
      let (tries_step, b) =
        sum-set (map eligible_of slots) i 1 0 (get_elem?-map eligible_of slots i (r, true) at) in
      let sizes = ap sum (set-map (slot_size c) slots i (r, false)) in
      let tries = ap sum (set-map eligible_of slots i (r, false)) in
      subst (λ t. measure t < measure slots) (some-injective _ _ h)
        (fewer _ _ _ _ _ _ _ sizes tries size_step tries_step)
    where
      fewer :
          (s' s t' t a b' b : ℕ)
          → s' ≡ s
          → t' ≡ t
          → s' + a ≡ b' + a
          → t' + 1 ≡ b + 0
          → s + t < b' + b
      fewer s' s t' t a b' b e e' h' k = omega arith
  round-lem slots next i r invalid shrunk at h = cc

  -- The results fit together, or an exception says that they do not; the loop has ended.
  abbrev pub IsBounded : ℕ → ℕ → Bounded → Type 0
  IsBounded limit count (bounded results) =
      (sum (map c.size results) ≤ limit) × (length results ≡ count)
  IsBounded limit count overflow = Unit {0}
  IsBounded limit count value_failure = Unit {0}
  IsBounded limit count out_of_fuel = ⊥

  round-length :
      (slots next : List Slot) (i : ℕ) (r : ToolResult) (s : Shrunk)
      → bound_round c slots i r s ≡ some next
      → length next ≡ length slots
  unfolding bound_round
  round-length slots next i r (smaller q) h =
      subst (λ t. length t ≡ length slots) (some-injective _ _ h) (length-set slots i (q, true))
  round-length slots next i r given_up h =
      subst (λ t. length t ≡ length slots) (some-injective _ _ h) (length-set slots i (r, false))
  round-length slots next i r invalid h = cc

  total-results : (slots : List Slot) → sum (map c.size (map (λ s. s.0) slots)) ≡ total_size c slots
  total-results [] = refl
  total-results (s ∷ slots) = ap (λ n. c.size s.0 + n) (total-results slots)

  length-results : (slots : List Slot) → length (map (λ s. s.0) slots) ≡ length slots
  length-results [] = refl
  length-results (s ∷ slots) = ap suc (length-results slots)

  bound_slots-IsBounded :
      (fuel limit : ℕ) (slots : List Slot)
      → measure slots < fuel
      → IsBounded limit (length slots) (bound_slots c fuel limit slots)
  unfolding bound_slots
  bound_slots-IsBounded zero limit slots h = absurd (omega arith)
  bound_slots-IsBounded (suc fuel) limit slots h =
      elim (Bool-cases (ltb limit (total_size c slots))) [
        | inr e ↦
            rw (bound_slots, e) (rw (total-results slots) (ground arith), length-results slots)
        | inl e ↦ elim (Option-cases (largest c slots)) [
          | inl n ↦ rw (bound_slots, e, n) tt
          | inr ((i, r), n) ↦ elim (Option-cases (bound_round c slots i r (shrink c r))) [
            | inl m ↦ rw (bound_slots, e, n, m) tt
            | inr (next, m) ↦
                let less = round-lem slots next i r (shrink c r) refl (largest-at slots i r n) m in
                let ih = bound_slots-IsBounded fuel limit next (omega arith) in
                rw (bound_slots, e, n, m)
                  (subst (λ k. IsBounded limit k (bound_slots c fuel limit next))
                    (round-length slots next i r (shrink c r) m) ih)
          ]
        ]
      ]

  measure-slots_of :
      (results : List ToolResult)
      → measure (slots_of c results) ≡ total_size c (slots_of c results) + length results
  measure-slots_of results = ap (λ n. total_size c (slots_of c results) + n) (go results)
    where
      go : (rs : List ToolResult) → sum (map eligible_of (slots_of c rs)) ≡ length rs
      go [] = refl
      go (r ∷ rs) = omega (arith, go rs)

  length-slots_of : (results : List ToolResult) → length (slots_of c results) ≡ length results
  length-slots_of [] = refl
  length-slots_of (r ∷ results) = ap suc (length-slots_of results)

  -- Bounding a batch of results always ends, within a round for each character and each result: either
  -- with as many results as there were, which together are not longer than the limit, or with an
  -- exception.
  pub bound_result_batch-IsBounded :
      (results : List ToolResult) (limit : ℕ)
      → IsBounded limit (length results) (bound_result_batch c results limit)
  unfolding bound_result_batch
  bound_result_batch-IsBounded results limit =
      let enough = measure-slots_of results in
      subst (λ k. IsBounded limit k (bound_result_batch c results limit)) (length-slots_of results)
        (bound_slots-IsBounded _ limit (slots_of c results) (omega arith))
