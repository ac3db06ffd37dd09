-- ===== src/Checkpoint/Captured.antt =====
-- What a capture of the host's components returns is valid.
use looplet.Prelude.{
  Bool-cases, List, Option, String, [], ap, arith, eq_iff, false, inl, inr, is_some, none, refl,
  some, some-injective, str_eq, str_mem, subst, sym, true, ◌&&◌, ◌||◌, ◌∙◌, ◌∷◌, ◌≡◌,
}
use looplet.Value.{Fields, Value, dict, end, field, get, text}
use looplet.Registry.Arguments.{set_field}
use looplet.Checkpoint.Participants.{
  Json, Participant, Participants, add_entry, all_among, all_pass, all_versions, capture,
  capture_all, capture_one, captured, checked, dict_in, entries_of, entry_of, keys_of, manifest,
  names_of, passes, prepare, schema_name, snapshot_of, state_of, validate, well_named,
}
use looplet.Checkpoint.Restoring.{tested_if}

str_mem-set_field :
    (k i : String) (v : Value) (fs : Fields)
    → str_mem k (keys_of (set_field i v fs)) ≡ (str_eq k i || str_mem k (keys_of fs))
str_mem-set_field k i v end = ground arith
str_mem-set_field k i v (field j u fs) =
    ground (arith, str_mem-set_field k i v fs, eq_iff j i, eq_iff k i, eq_iff k j)

get-set_field : (k : String) (v : Value) (fs : Fields) → get k (set_field k v fs) ≡ some v
get-set_field k v end = ground (arith, eq_iff k k)
get-set_field k v (field j u fs) = ground (arith, get-set_field k v fs, eq_iff j k, eq_iff k j)

get-set_field_other :
    (k i : String) (v : Value) (fs : Fields)
    → str_eq k i ≡ false
    → get k (set_field i v fs) ≡ get k fs
get-set_field_other k i v end other = ground (arith, eq_iff k i, eq_iff i k)
get-set_field_other k i v (field j u fs) other =
    ground
      (arith, get-set_field_other k i v fs other, eq_iff j i, eq_iff k i, eq_iff i k, eq_iff j k)

all_among_of_mem :
    (ks names : List String)
    → ((k : String) → str_mem k ks ≡ true → str_mem k names ≡ true)
    → all_among ks names ≡ true
all_among_of_mem [] names among = refl
all_among_of_mem (k ∷ ks) names among = ground (
  arith,
  eq_iff k k,
  among k,
  all_among_of_mem ks names (λ i held. among i (ground (arith, held))),
)

mem_of_get :
    (k : String) (v : Value) (fs : Fields) → get k fs ≡ some v → str_mem k (keys_of fs) ≡ true
mem_of_get k v end e = ground arith
mem_of_get k v (field i u fs) e = ground (arith, mem_of_get k v fs, e, eq_iff i k, eq_iff k i)

manifest_states :
    (identity : String) (found : Option Fields) (doc : Fields)
    → manifest identity found ≡ some doc
    → (states : Fields) × (found ≡ some states)
      × (doc
          ≡ field "schema"
              (text schema_name)
              (field "identity" (text identity) (field "participants" (dict states) end)))
manifest_states identity none doc e = ground arith
manifest_states identity (some states) doc e = (states, refl, sym (some-injective _ doc e))

module _ {W : Type 0} (j : Json) where
  -- The participants that follow have names of their own.
  well_named-fresh :
      (seen : List String) (ps : List (Participant W)) (k : String)
      → well_named j seen ps ≡ true
      → str_mem k seen ≡ true
      → str_mem k (names_of ps) ≡ false
  unfolding well_named
  well_named-fresh seen [] k distinct held = refl
  well_named-fresh seen (p ∷ ps) k distinct held =
      let rest : well_named j (p.name ∷ seen) ps ≡ true = ground (arith, distinct) in
      let fresh : str_mem p.name seen ≡ false = ground (arith, distinct) in
      let later : str_mem k (names_of ps) ≡ false =
        well_named-fresh (p.name ∷ seen) ps k rest (ground (arith, held)) in
      elim (Bool-cases (str_eq k p.name)) [
        | inl same ↦
            let e : str_mem p.name seen ≡ true =
              subst (λ x. str_mem x seen ≡ true) ((eq_iff k p.name).0 same) held in
            absurd (ground (arith, e, fresh))
        | inr other ↦ rw (other, later)
      ]

  keys_of-add_entry :
      (p : Participant W) (ps : List (Participant W)) (w : W) (found : Option Fields)
      (acc states : Fields) (k : String)
      → ((acc' : Fields)
          → capture_all j ps w acc' ≡ some states
          → str_mem k (keys_of states) ≡ true
          → (str_mem k (names_of ps) || str_mem k (keys_of acc')) ≡ true)
      → add_entry j (capture_all j ps w) p found acc ≡ some states
      → str_mem k (keys_of states) ≡ true
      → (str_mem k (names_of (p ∷ ps)) || str_mem k (keys_of acc)) ≡ true
  keys_of-add_entry p ps w none acc states k later e held = ground arith
  keys_of-add_entry p ps w (some s) acc states k later e held = ground (
    arith,
    later (set_field p.name (entry_of p.version s) acc) e held,
    str_mem-set_field k p.name (entry_of p.version s) acc,
  )

  keys_of-capture_all :
      (ps : List (Participant W)) (w : W) (acc states : Fields) (k : String)
      → capture_all j ps w acc ≡ some states
      → str_mem k (keys_of states) ≡ true
      → (str_mem k (names_of ps) || str_mem k (keys_of acc)) ≡ true
  unfolding capture_all
  keys_of-capture_all [] w acc states k e held =
      subst (λ x. str_mem k (keys_of x) ≡ true) (some-injective states acc (sym e)) held
  keys_of-capture_all (p ∷ ps) w acc states k e held =
      keys_of-add_entry p ps w (capture_one j p w) acc states k
        (λ acc'. keys_of-capture_all ps w acc' states k) e held

  get-add_entry :
      (p : Participant W) (ps : List (Participant W)) (w : W) (found : Option Fields)
      (acc states : Fields) (k : String)
      → ((acc' : Fields) → capture_all j ps w acc' ≡ some states → get k states ≡ get k acc')
      → add_entry j (capture_all j ps w) p found acc ≡ some states
      → str_eq k p.name ≡ false
      → get k states ≡ get k acc
  get-add_entry p ps w none acc states k later e other = ground arith
  get-add_entry p ps w (some s) acc states k later e other =
      later (set_field p.name (entry_of p.version s) acc) e
      ∙ get-set_field_other k p.name (entry_of p.version s) acc other

  -- The entry of a participant stands in the result, and later participants do not change it.
  get-capture_all :
      (ps : List (Participant W)) (w : W) (acc states : Fields) (k : String)
      → capture_all j ps w acc ≡ some states
      → str_mem k (names_of ps) ≡ false
      → get k states ≡ get k acc
  unfolding capture_all
  get-capture_all [] w acc states k e fresh = ap (get k) (some-injective states acc (sym e))
  get-capture_all (p ∷ ps) w acc states k e fresh =
      let later : str_mem k (names_of ps) ≡ false = ground (arith, fresh) in
      get-add_entry p ps w (capture_one j p w) acc states k
        (λ acc' e'. get-capture_all ps w acc' states k e' later) e (ground (arith, fresh))

  abbrev AllKept : List (Participant W) → W → Fields → Type 0
  AllKept [] w states = Unit {0}
  AllKept (p ∷ ps) w states =
      ((s : Fields) × (capture_one j p w ≡ some s)
        × (get p.name states ≡ some (entry_of p.version s)))
      × AllKept ps w states

  add_entry-AllKept :
      (p : Participant W) (ps : List (Participant W)) (w : W) (found : Option Fields)
      (acc states : Fields)
      → str_mem p.name (names_of ps) ≡ false
      → ((acc' : Fields) → capture_all j ps w acc' ≡ some states → AllKept ps w states)
      → add_entry j (capture_all j ps w) p found acc ≡ some states
      → ((s : Fields) × (found ≡ some s) × (get p.name states ≡ some (entry_of p.version s)))
        × AllKept ps w states
  add_entry-AllKept p ps w none acc states fresh later e = ground arith
  add_entry-AllKept p ps w (some s) acc states fresh later e =
      let acc' = set_field p.name (entry_of p.version s) acc in
      (
        (
          s,
          refl,
          get-capture_all ps w acc' states p.name e fresh
              ∙ get-set_field p.name (entry_of p.version s) acc,
        ),
        later acc' e,
      )

  capture_all-AllKept :
      (seen : List String) (ps : List (Participant W)) (w : W) (acc states : Fields)
      → well_named j seen ps ≡ true
      → capture_all j ps w acc ≡ some states
      → AllKept ps w states
  unfolding capture_all well_named
  capture_all-AllKept seen [] w acc states distinct e = tt
  capture_all-AllKept seen (p ∷ ps) w acc states distinct e =
      let rest : well_named j (p.name ∷ seen) ps ≡ true = ground (arith, distinct) in
      add_entry-AllKept p ps w (capture_one j p w) acc states
        (well_named-fresh (p.name ∷ seen) ps p.name rest (ground (arith, eq_iff p.name p.name)))
        (λ acc' e'. capture_all-AllKept (p.name ∷ seen) ps w acc' states rest e') e

  entry_read :
      (p : Participant W) (w : W) (s states : Fields)
      → get p.name states ≡ some (entry_of p.version s)
      → state_of p states ≡ some s
  entry_read p w s states stands = rw (stands, (eq_iff p.version p.version).1 refl)

  captured-passes :
      (p : Participant W) (w : W) (found : Option Fields) (s : Fields)
      → captured j p w found ≡ some s
      → passes j p w (snapshot_of j (some s)) ≡ true
  captured-passes p w none s e = ground arith
  captured-passes p w (some raw) s e =
      let (tested, same) = tested_if (passes j p w (snapshot_of j (some raw))) raw s e in
      subst (λ x. passes j p w (snapshot_of j (some x)) ≡ true) same tested

  AllKept-valid :
      (ps : List (Participant W)) (w : W) (states : Fields)
      → AllKept ps w states
      → (all_versions j ps states && all_pass j ps w states) ≡ true
  unfolding all_versions all_pass
  AllKept-valid [] w states kept = refl
  AllKept-valid (p ∷ ps) w states ((s, caught, stands), kept) =
      let read = entry_read p w s states stands in
      let pass : passes j p w (snapshot_of j (state_of p states)) ≡ true =
        subst (λ x. passes j p w (snapshot_of j x) ≡ true) (sym read)
          (captured-passes p w (snapshot_of j (dict_in (p.capture w))) s caught) in
      let found : is_some (state_of p states) ≡ true = ap is_some read in
      let later = AllKept-valid ps w states kept in ground (arith, pass, found, later)

  all_named :
      (ps : List (Participant W)) (w : W) (states : Fields)
      → AllKept ps w states
      → all_among (names_of ps) (keys_of states) ≡ true
  all_named [] w states kept = refl
  all_named (p ∷ ps) w states ((s, caught, stands), kept) =
      ground
        (arith, all_named ps w states kept, mem_of_get p.name (entry_of p.version s) states stands)

  capture_all-checked :
      (h : Participants W) (w : W) (states : Fields)
      → well_named j [] h.participants ≡ true
      → capture_all j h.participants w end ≡ some states
      → checked j h w (some states) ≡ some states
  capture_all-checked h w states distinct e =
      let kept = capture_all-AllKept [] h.participants w end states distinct e in
      let named = all_named h.participants w states kept in
      let valid = AllKept-valid h.participants w states kept in
      let among : all_among (keys_of states) (names_of h.participants) ≡ true =
        all_among_of_mem (keys_of states) (names_of h.participants)
          (λ k held. ground (arith, keys_of-capture_all h.participants w end states k e held)) in
      rw (among, named, valid)

  entries_of_manifest :
      (h : Participants W) (states : Fields)
      → entries_of j h (
          some (
            field "schema"
              (text schema_name)
              (field "identity" (text h.identity) (field "participants" (dict states) end))))
        ≡ some states
  unfolding schema_name
  entries_of_manifest h states = rw ((eq_iff h.identity h.identity).1 refl)

  prepare_alive :
      (h : Participants W) (w : W) (doc : Fields)
      → h.failed_restore ≡ false
      → prepare j h w doc ≡ checked j h w (entries_of j h (snapshot_of j (some doc)))
  unfolding prepare
  prepare_alive h w doc alive = rw alive

  -- For participants whose names passed the tests of the constructor, a world, and a manifest that they
  -- captured in it: if the copy of the manifest by way of JSON is the manifest itself, the same
  -- participants find it valid in this world.
  pub validate-capture :
      (h : Participants W) (w : W) (doc : Fields)
      → well_named j [] h.participants ≡ true
      → capture j h w ≡ some doc
      → snapshot_of j (some doc) ≡ some doc
      → validate j h w doc ≡ true
  unfolding capture validate
  validate-capture h w doc distinct caught lossless = elim (Bool-cases h.failed_restore) [
    | inl dead ↦ let e = rw dead at caught in ground arith
    | inr alive ↦
        let e = rw alive at caught in
        let (states, held, same) =
          manifest_states h.identity (capture_all j h.participants w end) doc e in
        let read : entries_of j h (some doc) ≡ some states =
          ap (λ x. entries_of j h (some x)) same ∙ entries_of_manifest h states in
        ap is_some (
          prepare_alive h w doc alive
          ∙ ap (checked j h w) (ap (entries_of j h) lossless ∙ read)
          ∙ capture_all-checked h w states distinct held)
  ]
