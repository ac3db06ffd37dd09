-- ===== src/DiskList/Live.antt =====
-- The live record: a hit in the cache, a change in place, and the weight.
use looplet.Prelude.{
  List, Option, Option-cases, ap, arith, inl, inr, length, map, none, refl, some, subst, sym, ℕ,
  ◌∙◌, ◌≡◌,
}
use looplet.Prelude.Places.{
  get_elem?, get_elem?-map, get_elem?-set_self, length-set, set, set-map, set-set, sum,
}
use looplet.DiskList.{Codec, DiskList, edit_cached, edit_live, live_at, sync_weight, weigh}
use looplet.DiskList.Settled.{Listing, Live, Refines, weigh-none}
use looplet.DiskList.Flush.{sync-none, sync_weight_lem}
use looplet.DiskList.Uses.{edited, edited_at}

module _ {R P : Type 0} (codec : Codec R P) where
  pub live_at-focus :
      (p : ℕ) (value : R) (cache : Option (ℕ × R)) (s : DiskList R P) (ys : List R) (ws : List ℕ)
      (l : Listing R)
      → live_at codec p cache ≡ some value
      → Live codec cache s ys ws l
      → (l.focus ≡ some p) × (get_elem? l.items p ≡ some value)
  live_at-focus p value none s ys ws l hit live = cc
  live_at-focus p value (some (q, v)) s ys ws l hit (f, at, within, b, c, d, e) =
      let (same, held) : (q ≡ p) × (v ≡ value) = (ground arith, ground arith) in
      (
        f ∙ ap some same,
        subst (λ k. get_elem? l.items k ≡ some value) same
            (ap (λ xs. get_elem? xs q) (sym at) ∙ get_elem?-set_self ys q v within ∙ ap some held),
      )

  edit-Live :
      (f : R → R) (cache other : Option (ℕ × R)) (s : DiskList R P) (ys : List R) (ws : List ℕ)
      (l : Listing R)
      → Live codec cache s ys ws l
      → Live codec
          (edit_cached f cache)
          (record s { cache = other })
          ys
          ws
          (record l { items = edited codec.weight f l.focus l.items })
  edit-Live f none other s ys ws l (none_live, ys', ws') =
      let same : l.items ≡ edited codec.weight f l.focus l.items = rw none_live in
      (none_live, ys' ∙ same, ws' ∙ ap (map (weigh codec)) same)
  edit-Live f (some (q, v)) other s ys ws l (live, at, within, weights, old, free, held) =
      let here : get_elem? l.items q ≡ some v =
        ap (λ xs. get_elem? xs q) (sym at) ∙ get_elem?-set_self ys q v within in
      let same : set l.items q (f v) ≡ edited codec.weight f l.focus l.items = rw (live, here) in
      (
        live,
        sym (set-set ys q v (f v)) ∙ ap (λ xs. set xs q (f v)) at ∙ same,
        within,
        sym (set-set ws q (weigh codec v) (weigh codec (f v)))
            ∙ ap (λ vs. set vs q (weigh codec (f v))) weights
            ∙ set-map (weigh codec) l.items q (f v)
            ∙ ap (map (weigh codec)) same,
        old,
        free,
        held,
      )

  edited_at-length :
      (f : R → R) (p : ℕ) (found_value : Option R) (xs : List R)
      → length (edited_at codec.weight f p found_value xs) ≡ length xs
  edited_at-length f p none xs = refl
  edited_at-length f p (some value) xs = length-set xs p (f value)

  edited-length :
      (f : R → R) (focus : Option ℕ) (xs : List R)
      → length (edited codec.weight f focus xs) ≡ length xs
  edited-length f none xs = refl
  edited-length f (some p) xs = edited_at-length f p (get_elem? xs p) xs

  pub edit-Refines :
      (f : R → R) (s : DiskList R P) (l : Listing R)
      → Refines codec s l
      → Refines codec (edit_live f s) (record l { items = edited codec.weight f l.focus l.items })
  unfolding edit_live
  edit-Refines f s l ref = record {
    stored = ref.stored;
    weights = ref.weights;
    stands = ref.stands;
    counted = ref.counted ∙ sym (edited-length f l.focus l.items);
    summed = ref.summed;
    live = edit-Live f s.cache _ s ref.stored ref.weights l ref.live;
  }

  -- bringing the live weight up to date gives the sum of the weights of the items
  pub weighed-Agrees :
      (s : DiskList R P) (l : Listing R)
      → Refines codec s l
      → Refines codec (sync_weight codec s) l
        × ((sync_weight codec s).total ≡ sum (map (weigh codec) l.items))
  weighed-Agrees s l ref = elim (Option-cases s.cache) [
    | inl none_live ↦
        let (f, ys, ws) : Live codec none s ref.stored ref.weights l =
          subst (λ c. Live codec c s ref.stored ref.weights l) none_live ref.live in
        rw (sync-none codec s none_live) (ref, ref.summed ∙ ap sum ws)
    | inr ((p, value), live) ↦
        let (f, ys, within, ws, old, free, (payload, held, at)) : Live codec (some (p, value)) s
            ref.stored ref.weights l =
          subst (λ c. Live codec c s ref.stored ref.weights l) live ref.live in
        let w = weigh codec value in
        let (st₁, total₁, weight₁, cache₁, payload₁, length₁) =
          sync_weight_lem codec s ref.stored ref.weights p (codec.decode payload) ref.stands at old
            ref.summed value live free in
        let here : get_elem? (set ref.weights p w) p ≡ some w =
          ap (λ vs. get_elem? vs p) ws
          ∙ get_elem?-map (weigh codec) l.items p value
              (ap (λ xs. get_elem? xs p) (sym ys) ∙ get_elem?-set_self ref.stored p value within) in
        let still = set-set ref.weights p w w ∙ ws in
        (
          record {
            stored = ref.stored;
            weights = set ref.weights p w;
            stands = st₁;
            counted = length₁ ∙ ref.counted;
            summed = total₁;
            live =
                subst (λ c. Live codec c (sync_weight codec s) ref.stored (set ref.weights p w) l)
                  (sym (cache₁ ∙ live))
                  (
                    f,
                    ys,
                    within,
                    still,
                    here ∙ ap some (sym weight₁),
                    λ none_given. weight₁ ∙ weigh-none codec value none_given,
                    (payload, payload₁ ∙ held, at),
                  );
          },
          total₁ ∙ ap sum ws,
        )
  ]
