-- ===== src/DiskList/Flush.antt =====
-- A flush of the list on disk: it brings the row of the live record up to date, and changes no item.
use looplet.Prelude.{
  ==_iff, Bool-cases, List, Option-cases, ap, arith, false, inl, inr, length, map, none, refl, some,
  subst, sym, true, ℕ, ◌+◌, ◌<◌, ◌==◌, ◌∙◌, ◌≡◌,
}
use looplet.Prelude.Places.{
  get_elem?, get_elem?-map, get_elem?-set_self, set, set_same, sum, sum-set,
}
use looplet.DiskList.{
  Codec, DiskList, Row, flush, flush_live, holds_payload, select, sync_live, sync_to, sync_weight,
  update_at, weigh, weigh_by, write_back,
}
use looplet.DiskList.Rows.{Stands, select-Stands, update_at-Stands}
use looplet.DiskList.Settled.{IsLossless, Kept, Listing, Live, Refines, Settled, weigh-none}

module _ {R P : Type 0} (codec : Codec R P) where
  pub same_row :
      (rows : List (Row P)) (p : ℕ) (r r' : Row P)
      → select p rows ≡ some r
      → select p rows ≡ some r'
      → codec.decode r.payload ≡ codec.decode r'.payload
  same_row rows p r r' e e' = cc

  -- what a state is after the weight of the row at `p` was brought up to date
  abbrev pub Synced : DiskList R P → DiskList R P → List R → List ℕ → ℕ → ℕ → Type 0
  Synced s s' stored weights p w =
      Stands codec.decode 0 s'.records stored (set weights p w)
      × (s'.total ≡ sum (set weights p w))
      × (s'.cache_weight ≡ w)
      × (s'.cache ≡ s.cache)
      × (s'.cache_payload ≡ s.cache_payload)
      × (s'.length ≡ s.length)

  -- bringing the weight of the live row up to date
  module _ (s : DiskList R P) (stored : List R) (weights : List ℕ) (p : ℕ) (y : R)
      (st : Stands codec.decode 0 s.records stored weights) (at : get_elem? stored p ≡ some y)
      (old : get_elem? weights p ≡ some s.cache_weight) (total : s.total ≡ sum weights) where
    pub sync_to_lem : (w : ℕ) → Synced s (sync_to codec p w s) stored weights p w
    unfolding sync_to
    sync_to_lem w = elim (Bool-cases (w == s.cache_weight)) [
      | inl e ↦
          let same : w ≡ s.cache_weight = (==_iff w s.cache_weight).0 e in
          rw (sync_to, e, set_same weights p w (old ∙ ap some (sym same)))
            (st, total, sym same, refl, refl, refl)
      | inr e ↦
          let (balance, within) = sum-set weights p s.cache_weight w old in
          let (r, found, value, weight) =
            select-Stands codec.decode 0 p p s.records stored weights y (omega arith) st at in
          let moved =
            update_at-Stands codec.decode 0 p p (λ r'. record r' { weight = w }) s.records stored
              weights y w (omega arith) (λ r'. refl)
              (λ r' found'. (same_row s.records p r' r found' found ∙ value, refl)) st in
          let rows' = update_at p (λ (r' : Row P). record r' { weight = w }) s.records in
          rw (sync_to, e)
            (
              subst (λ ys. Stands codec.decode 0 rows' ys (set weights p w))
                  (set_same stored p y at) moved,
              omega arith,
              refl,
              refl,
              refl,
              refl,
            )
    ]

    sync-unweighed :
        (value : R) → s.cache ≡ some (p, value) → codec.weight ≡ none → sync_weight codec s ≡ s
    unfolding sync_weight
    sync-unweighed value live none_given =
        ap (λ c. sync_live codec c codec.weight s) live
        ∙ ap (λ w. sync_live codec (some (p, value)) w s) none_given

    sync-weighed :
        (value : R) (f : R → ℕ)
        → s.cache ≡ some (p, value)
        → codec.weight ≡ some f
        → sync_weight codec s ≡ sync_to codec p (f value) s
    unfolding sync_weight
    sync-weighed value f live given =
        ap (λ c. sync_live codec c codec.weight s) live
        ∙ ap (λ w. sync_live codec (some (p, value)) w s) given

    pub sync_weight_lem :
        (value : R)
        → s.cache ≡ some (p, value)
        → (codec.weight ≡ none → s.cache_weight ≡ 0)
        → Synced s (sync_weight codec s) stored weights p (weigh codec value)
    sync_weight_lem value live free = elim (Option-cases codec.weight) [
      | inl none_given ↦
          let zero_weight : s.cache_weight ≡ weigh codec value =
            free none_given ∙ sym (weigh-none codec value none_given) in
          let same = set_same weights p (weigh codec value) (old ∙ ap some zero_weight) in
          rw (sync-unweighed value live none_given, same) (st, total, zero_weight, refl, refl, refl)
      | inr (f, given) ↦
          let known : f value ≡ weigh codec value = ap (λ o. weigh_by o value) (sym given) in
          subst (λ w. Synced s (sync_weight codec s) stored weights p w) known
            (rw (sync-weighed value f live given) (sync_to_lem (f value)))
    ]

  pub sync-none : (s : DiskList R P) → s.cache ≡ none → sync_weight codec s ≡ s
  unfolding sync_weight
  sync-none s none_live = ap (λ c. sync_live codec c codec.weight s) none_live

  module _ (lossless : IsLossless codec) where
    -- writing a live record back
    module _ (s : DiskList R P) (stored : List R) (weights : List ℕ) (p : ℕ) (payload : P)
        (value : R) (st : Stands codec.decode 0 s.records stored weights)
        (within : p < length stored) (held : s.cache_payload ≡ some payload)
        (at : get_elem? stored p ≡ some (codec.decode payload))
        (old : get_elem? weights p ≡ some s.cache_weight) where
      pub write_back_lem :
          let s' = write_back codec p (codec.encode value) s in
          Stands codec.decode 0 s'.records (set stored p value) weights
          × (s'.total ≡ s.total)
          × (s'.cache_weight ≡ s.cache_weight)
          × (s'.cache ≡ s.cache)
          × (s'.length ≡ s.length)
          × ((kept : P) × (s'.cache_payload ≡ some kept) × (codec.decode kept ≡ value))
      unfolding write_back
      write_back_lem = elim (Bool-cases (codec.same_payload (codec.encode value) payload)) [
        | inl e ↦
            let back : codec.decode payload ≡ value =
              ap codec.decode (sym (lossless.same_sound _ _ e)) ∙ lossless.decode-encode value in
            let hit : holds_payload codec (codec.encode value) s.cache_payload ≡ true = rw held e in
            rw (write_back, hit, set_same stored p value (at ∙ ap some back))
              (st, refl, refl, refl, refl, (payload, held, back))
        | inr e ↦
            let (r, found, y, weight) =
              select-Stands codec.decode 0 p p s.records stored weights (codec.decode payload)
                (omega arith) st at in
            let moved =
              update_at-Stands codec.decode 0 p p
                (λ r'. record r' { payload = codec.encode value; revision = s.revision + 1 })
                s.records stored weights value s.cache_weight (omega arith) (λ r'. refl)
                (λ r' found'. (lossless.decode-encode value, cc)) st in
            let missed : holds_payload codec (codec.encode value) s.cache_payload ≡ false =
              rw held e in
            let rows' =
              update_at p
                (λ (r' : Row P). record r' {
                  payload = codec.encode value;
                  revision = s.revision + 1;
                })
                s.records in
            rw (write_back, missed)
              (
                subst (λ ws. Stands codec.decode 0 rows' (set stored p value) ws)
                    (set_same weights p s.cache_weight old) moved,
                refl,
                refl,
                refl,
                refl,
                (codec.encode value, refl, lossless.decode-encode value),
              )
      ]

    flush-none : (s : DiskList R P) → s.cache ≡ none → flush codec s ≡ s
    unfolding flush sync_weight
    flush-none s none_live =
        ap (λ c. flush_live codec c (sync_weight codec s)) none_live
        ∙ ap (λ c. sync_live codec c codec.weight s) none_live

    flush-some :
        (s : DiskList R P) (p : ℕ) (value : R)
        → s.cache ≡ some (p, value)
        → flush codec s ≡ write_back codec p (codec.encode value) (sync_weight codec s)
    unfolding flush
    flush-some s p value live = ap (λ c. flush_live codec c (sync_weight codec s)) live

    flush-none-Settled :
        (s : DiskList R P) (l : Listing R)
        → s.cache ≡ none
        → Refines codec s l
        → Settled codec (flush codec s) l
    flush-none-Settled s l none_live ref =
        let (f, ys, ws) : Live codec none s ref.stored ref.weights l =
          subst (λ c. Live codec c s ref.stored ref.weights l) none_live ref.live in
        subst (λ t. Settled codec t l) (sym (flush-none s none_live))
          record {
            stands =
                subst (λ ys'. Stands codec.decode 0 s.records ys' (map (weigh codec) l.items)) ys
                  (subst (λ ws'. Stands codec.decode 0 s.records ref.stored ws') ws ref.stands);
            counted = ref.counted;
            summed = ref.summed ∙ ap sum ws;
            kept = subst (λ c. Kept codec c s l) (sym none_live) f;
          }

    flush-some-Settled :
        (s : DiskList R P) (l : Listing R) (p : ℕ) (value : R)
        → s.cache ≡ some (p, value)
        → Refines codec s l
        → Settled codec (flush codec s) l
    flush-some-Settled s l p value live ref =
        let (f, ys, within, ws, old, free, (payload, held, at)) : Live codec (some (p, value)) s
            ref.stored ref.weights l =
          subst (λ c. Live codec c s ref.stored ref.weights l) live ref.live in
        let s₁ = sync_weight codec s in
        let w = weigh codec value in
        let (st₁, total₁, weight₁, cache₁, payload₁, length₁) =
          sync_weight_lem s ref.stored ref.weights p (codec.decode payload) ref.stands at old
            ref.summed value live free in
        let old₁ : get_elem? (set ref.weights p w) p ≡ some s₁.cache_weight =
          ap (λ vs. get_elem? vs p) ws
          ∙ get_elem?-map (weigh codec) l.items p value
              (ap (λ vs. get_elem? vs p) (sym ys) ∙ get_elem?-set_self ref.stored p value within)
          ∙ ap some (sym weight₁) in
        let (st₂, total₂, weight₂, cache₂, length₂, (kept, held₂, back)) =
          write_back_lem s₁ ref.stored (set ref.weights p w) p payload value st₁ within
            (payload₁ ∙ held) at old₁ in
        let rows₂ = (write_back codec p (codec.encode value) s₁).records in
        subst (λ t. Settled codec t l) (sym (flush-some s p value live))
          record {
            stands =
                subst (λ ys'. Stands codec.decode 0 rows₂ ys' (map (weigh codec) l.items)) ys
                  (subst (λ ws'. Stands codec.decode 0 rows₂ (set ref.stored p value) ws') ws st₂);
            counted = length₂ ∙ length₁ ∙ ref.counted;
            summed = total₂ ∙ total₁ ∙ ap sum ws;
            kept =
                subst (λ c. Kept codec c (write_back codec p (codec.encode value) s₁) l)
                  (sym (cache₂ ∙ cache₁ ∙ live))
                  (
                    f,
                    ap (λ vs. get_elem? vs p) (sym ys)
                        ∙ get_elem?-set_self ref.stored p value within,
                    weight₂ ∙ weight₁,
                    (kept, held₂, back),
                  );
          }

    -- A flush settles the list: afterwards every row holds the item at its place.
    pub flush-Settled :
        (s : DiskList R P) (l : Listing R) → Refines codec s l → Settled codec (flush codec s) l
    flush-Settled s l ref = elim (Option-cases s.cache) [
      | inl none_live ↦ flush-none-Settled s l none_live ref
      | inr ((p, value), live) ↦ flush-some-Settled s l p value live ref
    ]
