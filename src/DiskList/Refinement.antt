-- ===== src/DiskList/Refinement.antt =====
-- The list on disk behaves as a plain list.
use looplet.Prelude.{
  List, Option, Option-cases, [], ap, arith, inl, inr, length, map, none, refl, some, subst, ℕ, ◌<◌,
  ◌∙◌, ◌∷◌, ◌≡◌, ◌≤◌,
}
use looplet.Prelude.Places.{get_elem?, get_elem?_within, sum}
use looplet.Value.{negsuc, pos, ℤ}
use looplet.DiskList.{
  Codec, DiskList, clear, delete_item, flush, get_at, get_item, index_of, insert_item,
  insert_position, live_at, set_item, snapshot, total_weight, weigh_by, weight_answer,
}
use looplet.DiskList.Settled.{IsLossless, Listing, Refines, Settled-Refines}
use looplet.DiskList.Flush.{flush-Settled}
use looplet.DiskList.Changes.{
  delete_row-Settled, insert_row-Settled, read_row-Settled, set_row-Settled,
}
use looplet.DiskList.Uses.{
  Answer, Use, answer_read, assigns, clears, copies, deletes, edits, inserts, read_listed, reads,
  total_of, use_all_disk, use_all_listed, use_disk, use_listed, weighed, weighs,
}
use looplet.DiskList.Live.{edit-Refines, live_at-focus, weighed-Agrees}

module _ {R P : Type 0} (codec : Codec R P) where
  index_of-within : (n p : ℕ) (i : ℤ) → index_of n i ≡ some p → p < n
  unfolding index_of
  index_of-within n p (pos k) e = ground arith
  index_of-within n p (negsuc k) e = ground arith

  insert_position-within : (n : ℕ) (i : ℤ) → insert_position n i ≤ n
  unfolding insert_position
  insert_position-within n (pos k) = omega arith
  insert_position-within n (negsuc k) = omega arith

  -- an answer of the list on disk is the answer of the plain list, and the states correspond
  abbrev Agrees : Answer R × DiskList R P → Answer R × Listing R → Type 0
  Agrees (a, s) (b, l) = (a ≡ b) × Refines codec s l

  module _ (lossless : IsLossless codec) where
    get_at-Agrees :
        (s : DiskList R P) (l : Listing R) (p : ℕ)
        → Refines codec s l
        → p < length l.items
        → Agrees
            (answer_read codec s (get_at codec p s))
            (read_listed codec.weight p (get_elem? l.items p) l)
    unfolding get_at
    get_at-Agrees s l p ref within = elim (Option-cases (live_at codec p s.cache)) [
      | inl miss ↦
          let (value, at) = get_elem?_within l.items p within in
          let (s', e, settled) =
            read_row-Settled codec (flush codec s) l p value (flush-Settled codec lossless s l ref)
              at in
          rw (get_at, miss, e, at) (refl, Settled-Refines codec s' _ settled)
      | inr (value, hit) ↦
          let (f, at) =
            live_at-focus codec p value s.cache s ref.stored ref.weights l hit ref.live in
          rw (get_at, hit, at) (refl, subst (λ o. Refines codec s (record l { focus = o })) f ref)
    ]

    weight_answer_lem :
        (given : Option (R → ℕ)) (t : ℕ) (xs : List R)
        → t ≡ sum (map (weigh_by given) xs)
        → weight_answer codec given t ≡ total_of codec.weight given xs
    weight_answer_lem none t xs e = refl
    weight_answer_lem (some f) t xs e = ap some e

    same_index :
        (s : DiskList R P) (l : Listing R) (i : ℤ)
        → Refines codec s l
        → index_of s.length i ≡ index_of (length l.items) i
    same_index s l i ref = ap (λ n. index_of n i) ref.counted

    same_position :
        (s : DiskList R P) (l : Listing R) (i : ℤ)
        → Refines codec s l
        → insert_position s.length i ≡ insert_position (length l.items) i
    same_position s l i ref = ap (λ n. insert_position n i) ref.counted

    -- one use of the list
    use_disk-Agrees :
        (u : Use R) (s : DiskList R P) (l : Listing R)
        → Refines codec s l
        → Agrees (use_disk codec u s) (use_listed codec.weight u l)
    unfolding get_item set_item delete_item insert_item clear total_weight snapshot
    use_disk-Agrees (reads i) s l ref = elim (Option-cases (index_of (length l.items) i)) [
      | inl e ↦ rw (get_item, same_index s l i ref ∙ e, e) (refl, ref)
      | inr (p, e) ↦
          rw (get_item, same_index s l i ref ∙ e, e)
            (get_at-Agrees s l p ref (index_of-within _ p i e))
    ]
    use_disk-Agrees (assigns i value) s l ref = elim (Option-cases (index_of (length l.items) i)) [
      | inl e ↦ rw (set_item, same_index s l i ref ∙ e, e) (refl, ref)
      | inr (p, e) ↦
          let within = index_of-within _ p i e in
          let (old, at) = get_elem?_within l.items p within in
          let (s', done, settled) =
            set_row-Settled codec lossless s l p old value (flush-Settled codec lossless s l ref) at
              within in
          rw (set_item, same_index s l i ref ∙ e, e, done)
            (refl, Settled-Refines codec s' _ settled)
    ]
    use_disk-Agrees (deletes i) s l ref = elim (Option-cases (index_of (length l.items) i)) [
      | inl e ↦ rw (delete_item, same_index s l i ref ∙ e, e) (refl, ref)
      | inr (p, e) ↦
          let within = index_of-within _ p i e in
          let (old, at) = get_elem?_within l.items p within in
          let (s', done, settled) =
            delete_row-Settled codec lossless s l p old (flush-Settled codec lossless s l ref) at
              within in
          rw (delete_item, same_index s l i ref ∙ e, e, done)
            (refl, Settled-Refines codec s' _ settled)
    ]
    use_disk-Agrees (inserts i value) s l ref =
        let p = insert_position (length l.items) i in
        let settled =
          insert_row-Settled codec lossless s l p value (flush-Settled codec lossless s l ref)
            (insert_position-within (length l.items) i) in
        (refl, rw (insert_item, same_position s l i ref) (Settled-Refines codec _ _ settled))
    use_disk-Agrees clears s l ref = (
      refl,
      record {
        stored = [];
        weights = [];
        stands = tt;
        counted = refl;
        summed = refl;
        live = (refl, refl, refl);
      },
    )
    use_disk-Agrees (edits f) s l ref = (refl, edit-Refines codec f s l ref)
    use_disk-Agrees weighs s l ref =
        let (ref', total) = weighed-Agrees codec s l ref in
        (ap weighed (weight_answer_lem codec.weight _ l.items total), ref')
    use_disk-Agrees copies s l ref =
        (refl, Settled-Refines codec _ l (flush-Settled codec lossless s l ref))

module _ {R P : Type 0} (codec : Codec R P) (lossless : IsLossless codec) where
  pub uses-Agree :
      (us : List (Use R)) (s : DiskList R P) (l : Listing R)
      → Refines codec s l
      → ((use_all_disk codec us s).0 ≡ (use_all_listed codec.weight us l).0)
        × Refines codec (use_all_disk codec us s).1 (use_all_listed codec.weight us l).1
  uses-Agree [] s l ref = (refl, ref)
  uses-Agree (u ∷ us) s l ref =
      let (same, ref₁) = use_disk-Agrees codec lossless u s l ref in
      let (rest, ref₂) = uses-Agree us _ _ ref₁ in (cc, ref₂)
