-- ===== src/DiskList/Changes.antt =====
-- What the operations of the list on disk do to the items of a settled list.
use looplet.Prelude.{
  Bool-cases, List, [], ap, arith, false, inl, inr, length, ltb, ltb→lt, map, none, refl, some,
  subst, suc, sym, zero, ℕ, ◌+◌, ◌-◌, ◌<◌, ◌∙◌, ◌∷◌, ◌≡◌, ◌≤◌,
}
use looplet.Prelude.Places.{
  erase_idx, erase_idx-map, get_elem?, get_elem?-map, get_elem?-set_self, insert_idx,
  insert_idx-map, length-erase_idx, length-insert_idx, length-set, set, set-map, sum, sum-erase_idx,
  sum-insert_idx, sum-set,
}
use looplet.Value.{pos, pos}
use looplet.DiskList.{
  Codec, DiskList, Row, close_gap, delete_at, delete_position, enter, flush, insert_at, insert_row,
  open_slot, read_row, select, set_at, update_at, weigh,
}
use looplet.DiskList.Rows.{
  Stands, append_row-Stands, close_gap-Stands, insert_row-Stands, select-Stands, update_at-Stands,
}
use looplet.DiskList.Settled.{IsLossless, Listing, Settled}

module _ {R P : Type 0} (codec : Codec R P) where
  -- a row that a settled list has at a place
  pub row_at :
      (s : DiskList R P) (l : Listing R) (p : ℕ) (value : R)
      → Settled codec s l
      → get_elem? l.items p ≡ some value
      → (r : Row P) × (select p s.records ≡ some r)
        × (codec.decode r.payload ≡ value)
        × (r.weight ≡ weigh codec value)
  row_at s l p value settled at =
      let (r, hit, same, w) =
        select-Stands codec.decode 0 p p s.records l.items (map (weigh codec) l.items) value
          (omega arith) settled.stands at in
      let w' = get_elem?-map (weigh codec) l.items p value at in (r, hit, same, cc)

  -- a read of a settled list makes the record at the place the live one
  pub read_row-Settled :
      (s : DiskList R P) (l : Listing R) (p : ℕ) (value : R)
      → Settled codec s l
      → get_elem? l.items p ≡ some value
      → (s' : DiskList R P) × (read_row codec p s ≡ some (value, s'))
        × Settled codec s' (record l { focus = some p })
  unfolding read_row enter
  read_row-Settled s l p value settled at =
      let (r, hit, same, w) = row_at s l p value settled at in
      (
        enter codec p value r.payload r.weight s,
        rw (read_row, hit, same),
        record {
          stands = settled.stands;
          counted = settled.counted;
          summed = settled.summed;
          kept = (refl, at, w, (r.payload, refl, same));
        },
      )

  module _ (lossless : IsLossless codec) where
    -- an assignment to a settled list
    pub set_row-Settled :
        (s : DiskList R P) (l : Listing R) (p : ℕ) (old value : R)
        → Settled codec (flush codec s) l
        → get_elem? l.items p ≡ some old
        → p < length l.items
        → (s' : DiskList R P) × (set_at codec p value s ≡ some s')
          × Settled codec s' (record { items = set l.items p value; focus = some p })
    unfolding set_at enter
    set_row-Settled s l p old value settled at within =
        let s₁ = flush codec s in
        let (r, hit, same, w) = row_at s₁ l p old settled at in
        let change : Row P → Row P = λ r'. record r' {
          payload = codec.encode value;
          weight = weigh codec value;
          revision = s₁.revision + 1;
        } in
        let st =
          update_at-Stands codec.decode 0 p p change s₁.records l.items (map (weigh codec) l.items)
            value (weigh codec value) (omega arith) (λ r'. refl)
            (λ r' found'. (lossless.decode-encode value, refl)) settled.stands in
        let (balance, part) =
          sum-set (map (weigh codec) l.items) p (weigh codec old) (weigh codec value)
            (get_elem?-map (weigh codec) l.items p old at) in
        let same_weights = set-map (weigh codec) l.items p value in
        let total = settled.summed in
        (
          enter codec p value (codec.encode value) (weigh codec value) (record s₁ {
            records = update_at p change s₁.records;
            revision = s₁.revision + 1;
            total = s₁.total + weigh codec value - r.weight;
          }),
          rw (set_at, hit),
          record {
            stands =
                subst
                  (λ ws.
                    Stands codec.decode 0 (update_at p change s₁.records) (set l.items p value) ws)
                  same_weights st;
            counted = settled.counted ∙ sym (length-set l.items p value);
            summed = sum_after _ _ _ _ _ _ total w balance part ∙ ap sum same_weights;
            kept = (
              refl,
              get_elem?-set_self l.items p value within,
              refl,
              (codec.encode value, refl, lossless.decode-encode value),
            );
          },
        )
      where
        sum_after :
            (t s₀ w' old' w₀ new : ℕ)
            → t ≡ s₀
            → w₀ ≡ old'
            → new + old' ≡ s₀ + w'
            → old' ≤ s₀
            → t + w' - w₀ ≡ new
        sum_after t s₀ w' old' w₀ new e e' b h = omega arith

    -- a deletion from a settled list
    pub delete_row-Settled :
        (s : DiskList R P) (l : Listing R) (p : ℕ) (old : R)
        → Settled codec (flush codec s) l
        → get_elem? l.items p ≡ some old
        → p < length l.items
        → (s' : DiskList R P) × (delete_position codec p s ≡ some s')
          × Settled codec s' (record { items = erase_idx l.items p; focus = none })
    unfolding delete_position
    delete_row-Settled s l p old settled at within =
        let s₁ = flush codec s in
        let (r, hit, same, w) = row_at s₁ l p old settled at in
        let st =
          close_gap-Stands codec.decode 0 p p s₁.records l.items (map (weigh codec) l.items)
            (omega arith) within settled.stands in
        let balance =
          sum-erase_idx (map (weigh codec) l.items) p (weigh codec old)
            (get_elem?-map (weigh codec) l.items p old at) in
        let same_weights = erase_idx-map (weigh codec) l.items p in
        let rows = close_gap p (delete_at p s₁.records) in
        (
          record s₁ {
            cache = none;
            records = rows;
            generation = s₁.generation + 1;
            length = s₁.length - 1;
            total = s₁.total - r.weight;
          },
          rw (delete_position, hit),
          record {
            stands =
                subst (λ ws. Stands codec.decode 0 rows (erase_idx l.items p) ws) same_weights st;
            counted = one_less _ _ _ settled.counted (length-erase_idx l.items p within);
            summed = sum_after _ _ _ _ _ settled.summed w balance ∙ ap sum same_weights;
            kept = refl;
          },
        )
      where
        one_less : (n m k : ℕ) → n ≡ m → k + 1 ≡ m → n - 1 ≡ k
        one_less n m k e h = omega arith

        sum_after : (t s₀ old' w₀ new : ℕ) → t ≡ s₀ → w₀ ≡ old' → new + old' ≡ s₀ → t - w₀ ≡ new
        sum_after t s₀ old' w₀ new e e' b = omega arith

    -- a row at its place in a settled list, with room made for it
    opened-Stands :
        (s : DiskList R P) (l : Listing R) (p : ℕ) (value : R) (row : Row P)
        → Settled codec s l
        → p ≤ length l.items
        → row.position ≡ pos p
        → codec.decode row.payload ≡ value
        → row.weight ≡ weigh codec value
        → Stands codec.decode 0
            (insert_row p row (open_slot codec p s).records)
            (insert_idx l.items p value)
            (insert_idx (map (weigh codec) l.items) p (weigh codec value))
    unfolding open_slot
    opened-Stands s l p value row settled h it held w = elim (Bool-cases (ltb p s.length)) [
      | inl inside ↦
          rw (open_slot, inside)
            (insert_row-Stands codec.decode row value (weigh codec value) held w 0 p p s.records
              l.items (map (weigh codec) l.items) (omega arith) it
              (subst (λ n. p < n) settled.counted (ltb→lt _ _ inside)) settled.stands)
      | inr outside ↦
          let at_end : p ≡ length l.items = last p _ _ settled.counted h outside in
          rw (open_slot, outside)
            (subst
              (λ n.
                Stands codec.decode 0 (insert_row p row s.records) (insert_idx l.items n value)
                  (insert_idx (map (weigh codec) l.items) n (weigh codec value)))
              (sym at_end)
              (append_row-Stands codec.decode row value (weigh codec value) held w 0 p s.records
                l.items (map (weigh codec) l.items) (omega arith) it settled.stands))
    ]
      where
        last : (q n m : ℕ) → n ≡ m → q ≤ m → ltb q n ≡ false → q ≡ m
        last q n m e h o = ground arith

    open_slot-keeps :
        (s : DiskList R P) (p : ℕ)
        → ((open_slot codec p s).length ≡ s.length) × ((open_slot codec p s).total ≡ s.total)
    unfolding open_slot
    open_slot-keeps s p = elim (Bool-cases (ltb p s.length)) [
      | inl e ↦ rw (open_slot, e) (refl, refl)
      | inr e ↦ rw (open_slot, e) (refl, refl)
    ]

    get_elem?-insert_idx :
        (xs : List R) (i : ℕ) (v : R) → i ≤ length xs → get_elem? (insert_idx xs i v) i ≡ some v
    get_elem?-insert_idx xs zero v h = refl
    get_elem?-insert_idx [] (suc i) v h = absurd (omega arith)
    get_elem?-insert_idx (x ∷ xs) (suc i) v h = get_elem?-insert_idx xs i v (omega arith)

    -- an insertion into a settled list
    pub insert_row-Settled :
        (s : DiskList R P) (l : Listing R) (p : ℕ) (value : R)
        → Settled codec (flush codec s) l
        → p ≤ length l.items
        → Settled codec
            (insert_at codec p value s)
            (record { items = insert_idx l.items p value; focus = some p })
    unfolding insert_at enter
    insert_row-Settled s l p value settled h =
        let s₁ = open_slot codec p (flush codec s) in
        let (same_length, same_total) = open_slot-keeps (flush codec s) p in
        let same_weights = insert_idx-map (weigh codec) l.items p value in
        let row : Row P = record {
          position = pos p;
          payload = codec.encode value;
          weight = weigh codec value;
          revision = s₁.revision + 1;
        } in
        let st =
          opened-Stands (flush codec s) l p value row settled h refl (lossless.decode-encode value)
            refl in
        record {
          stands =
              subst
                (λ ws.
                  Stands codec.decode 0 (insert_row p row s₁.records) (insert_idx l.items p value)
                    ws)
                same_weights st;
          counted =
              ap (λ n. n + 1) (same_length ∙ settled.counted)
              ∙ sym (length-insert_idx l.items p value);
          summed =
              ap (λ n. n + weigh codec value) (same_total ∙ settled.summed)
              ∙ sym (sum-insert_idx (map (weigh codec) l.items) p (weigh codec value))
              ∙ ap sum same_weights;
          kept = (
            refl,
            get_elem?-insert_idx l.items p value h,
            refl,
            (codec.encode value, refl, lossless.decode-encode value),
          );
        }
