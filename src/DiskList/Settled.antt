-- ===== src/DiskList/Settled.antt =====
-- What the state of the list on disk stands for: a plain list, and the place of the live record.
use looplet.Prelude.{
  List, Option, [], ap, arith, length, map, none, refl, some, suc, sym, true, zero, ℕ, ◌<◌, ◌∙◌,
  ◌∷◌, ◌≡◌,
}
use looplet.Prelude.Places.{get_elem?, get_elem?-map, set, set_same, sum}
use looplet.DiskList.{Codec, DiskList, weigh}
use looplet.DiskList.Rows.{Stands}

-- a list, and the place whose record a program may still hold
pub record Listing (R : Type 0) : Type 0 where
  pub items : List R
  pub focus : Option ℕ

-- A codec loses nothing, and payloads that compare equal are equal.
pub record IsLossless {R P : Type 0} (codec : Codec R P) : Type 0 where
  pub decode-encode : (value : R) → codec.decode (codec.encode value) ≡ value
  pub same_sound : (a b : P) → codec.same_payload a b ≡ true → a ≡ b

module _ {R P : Type 0} (codec : Codec R P) where
  -- the live record, when its row is up to date
  abbrev pub Kept : Option (ℕ × R) → DiskList R P → Listing R → Type 0
  Kept none s l = l.focus ≡ none
  Kept (some (p, value)) s l =
      (l.focus ≡ some p)
      × (get_elem? l.items p ≡ some value)
      × (s.cache_weight ≡ weigh codec value)
      × ((payload : P) × (s.cache_payload ≡ some payload) × (codec.decode payload ≡ value))

  -- Every row holds the item at its place, with its weight.
  pub record Settled (s : DiskList R P) (l : Listing R) : Type 0 where
    pub stands : Stands codec.decode 0 s.records l.items (map (weigh codec) l.items)
    pub counted : s.length ≡ length l.items
    pub summed : s.total ≡ sum (map (weigh codec) l.items)
    pub kept : Kept s.cache s l

  -- the live record, when its row may be out of date
  abbrev pub Live : Option (ℕ × R) → DiskList R P → List R → List ℕ → Listing R → Type 0
  Live none s stored weights l =
      (l.focus ≡ none) × (stored ≡ l.items) × (weights ≡ map (weigh codec) l.items)
  Live (some (p, value)) s stored weights l =
      (l.focus ≡ some p)
      × (set stored p value ≡ l.items)
      × (p < length stored)
      × (set weights p (weigh codec value) ≡ map (weigh codec) l.items)
      × (get_elem? weights p ≡ some s.cache_weight)
      × (codec.weight ≡ none → s.cache_weight ≡ 0)
      × ((payload : P) × (s.cache_payload ≡ some payload)
          × (get_elem? stored p ≡ some (codec.decode payload)))

  -- The rows hold the items, but for the item that is live.
  pub record Refines (s : DiskList R P) (l : Listing R) : Type 0 where
    pub stored : List R
    pub weights : List ℕ
    pub stands : Stands codec.decode 0 s.records stored weights
    pub counted : s.length ≡ length l.items
    pub summed : s.total ≡ sum weights
    pub live : Live s.cache s stored weights l

  get_elem?-length : (xs : List R) (i : ℕ) (x : R) → get_elem? xs i ≡ some x → i < length xs
  get_elem?-length [] i x e = cc
  get_elem?-length (y ∷ xs) zero x e = omega arith
  get_elem?-length (y ∷ xs) (suc i) x e = omega (arith, get_elem?-length xs i x e)

  pub weigh-none : (value : R) → codec.weight ≡ none → weigh codec value ≡ 0
  weigh-none value e = rw e

  Kept-Live :
      (cache : Option (ℕ × R)) (s : DiskList R P) (l : Listing R)
      → Kept cache s l
      → Live cache s l.items (map (weigh codec) l.items) l
  Kept-Live none s l f = (f, refl, refl)
  Kept-Live (some (p, value)) s l (f, at, w, (payload, held, d)) = (
    f,
    set_same l.items p value at,
    get_elem?-length l.items p value at,
    set_same _ p _ (get_elem?-map (weigh codec) l.items p value at),
    get_elem?-map (weigh codec) l.items p value at ∙ ap some (sym w),
    λ e. w ∙ weigh-none value e,
    (payload, held, at ∙ ap some (sym d)),
  )

  pub Settled-Refines : (s : DiskList R P) (l : Listing R) → Settled s l → Refines s l
  Settled-Refines s l settled = record {
    stored = l.items;
    weights = map (weigh codec) l.items;
    stands = settled.stands;
    counted = settled.counted;
    summed = settled.summed;
    live = Kept-Live s.cache s l settled.kept;
  }
