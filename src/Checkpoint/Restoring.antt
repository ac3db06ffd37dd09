-- ===== src/Checkpoint/Restoring.antt =====
-- What a restoration of the host's components leaves behind.
use looplet.Prelude.{
  Bool, String, ap, eq_iff, Bool-cases, List, Option, [], arith, false, if◌then◌else◌, inl, inr,
  none, refl, some, subst, true, ◌&&◌, ◌∷◌, ◌≡◌,
}
use looplet.Value.{Fields, Value, dict, get, text, dict, text}
use looplet.Checkpoint.Participants.{
  Json, Participant, detached, dict_in, is_text, schema_name, Participants, Restoration,
  after_restore, all_pass, all_versions, capture, checked, entries_of, failed, go_on, has_exactly,
  names_of, passes, prepare, refused, restore, restore_all, restore_one, restore_prepared, restored,
  snapshot_of, state_of, validate,
}

pub tested_if :
    (b : Bool) (x y : Fields) → (if b then some x else none) ≡ some y → (b ≡ true) × (x ≡ y)
tested_if false x y e = ground arith
tested_if true x y e = (refl, ground arith)

none_is_not_some : (entries : Fields) → none ≡ some entries → ⊥
none_is_not_some entries e = ground arith

dict_in-eq : (o : Option Value) (fs : Fields) → dict_in o ≡ some fs → o ≡ some (dict fs)
dict_in-eq o fs e = ground arith

is_text-eq : (s : String) (o : Option Value) → is_text s o ≡ true → o ≡ some (text s)
is_text-eq s none e = cc
is_text-eq s (some (text t)) e = ap (λ u. some (text u)) ((eq_iff t s).0 e)
is_text-eq s (some _) e = ground arith

when_tested :
    (b : Bool) (o : Option Fields) (y : Fields)
    → (if b then o else none) ≡ some y
    → (b ≡ true) × (o ≡ some y)
when_tested false o y e = ground arith
when_tested true o y e = (refl, e)

module _ {W : Type 0} (j : Json) where
  -- Every participant has an entry of its version, with a state that it accepts in this world.
  abbrev pub AllAccept : W → List (Participant W) → Fields → Type 0
  AllAccept w [] entries = Unit {0}
  AllAccept w (p ∷ ps) entries =
      ((state : Fields) × (snapshot_of j (state_of p entries) ≡ some state)
        × (p.validate w state ≡ true))
      × AllAccept w ps entries

  -- The saved value is a JSON value, and the manifest of this schema and of this host: the entries are
  -- the ones in the copy of it.
  abbrev pub IsManifest : Participants W → Fields → Fields → Type 0
  IsManifest h state entries =
      (copy : Fields) × (j.detach state ≡ some copy)
      × (j.equal copy state ≡ true)
      × (get "schema" copy ≡ some (text schema_name))
      × (get "identity" copy ≡ some (text h.identity))
      × (get "participants" copy ≡ some (dict entries))

  -- Every participant has restored the state of its entry, in this order.
  abbrev pub Restores : List (Participant W) → Fields → W → W → Type 0
  Restores [] entries w w' = w ≡ w'
  Restores (p ∷ ps) entries w w' =
      (state : Fields) × (snapshot_of j (state_of p entries) ≡ some state)
      × ((p.restore w state).0 ≡ true)
      × Restores ps entries (p.restore w state).1 w'

  abbrev pub IsDead : Participants W → Type 0
  IsDead h =
      (w : W) (state : Fields)
      → (capture j h w ≡ none)
        × (validate j h w state ≡ false)
        × (restore j h w state ≡ (refused, h, w))

  -- how a restoration of a saved value ends
  abbrev pub IsSafe : Participants W → W → Fields → Restoration × Participants W × W → Type 0
  IsSafe h w state (refused, h', w') = (h' ≡ h) × (w' ≡ w)
  IsSafe h w state (failed, h', w') =
      ((entries : Fields) × IsManifest h state entries × AllAccept w h.participants entries)
      × IsDead h'
  IsSafe h w state (restored, h', w') =
      (h' ≡ h)
      × ((entries : Fields) × IsManifest h state entries
          × AllAccept w h.participants entries
          × Restores h.participants entries w w')

  IsDead-after : (h : Participants W) → IsDead (record h { failed_restore = true })
  unfolding capture validate prepare restore
  IsDead-after h w state = (refl, refl, refl)

  passes-accepts :
      (p : Participant W) (w : W) (found : Option Fields)
      → passes j p w found ≡ true
      → (state : Fields) × (found ≡ some state) × (p.validate w state ≡ true)
  passes-accepts p w none pass = ground arith
  passes-accepts p w (some state) pass = (state, refl, pass)

  all_pass-AllAccept :
      (ps : List (Participant W)) (w : W) (entries : Fields)
      → all_pass j ps w entries ≡ true
      → AllAccept w ps entries
  unfolding all_pass
  all_pass-AllAccept [] w entries pass = tt
  all_pass-AllAccept (p ∷ ps) w entries pass = (
    passes-accepts p w (snapshot_of j (state_of p entries)) (ground arith),
    all_pass-AllAccept ps w entries (ground arith),
  )

  abbrev WhenDone : List (Participant W) → Fields → Type 0
  WhenDone ps entries =
      (w : W)
      → (restore_all j ps entries w).0 ≡ true
      → Restores ps entries w (restore_all j ps entries w).1

  go_on-Restores :
      (ps : List (Participant W)) (entries : Fields)
      → WhenDone ps entries
      → (ran : Bool × W) → (go_on j (restore_all j ps entries) ran).0 ≡ true
      → (ran.0 ≡ true) × Restores ps entries ran.1 (go_on j (restore_all j ps entries) ran).1
  go_on-Restores ps entries later (false, w) done = ground arith
  go_on-Restores ps entries later (true, w) done = (refl, later w done)

  restore_one-Restores :
      (p : Participant W) (ps : List (Participant W)) (entries : Fields)
      → WhenDone ps entries
      → (w : W) (found : Option Fields)
      → (go_on j (restore_all j ps entries) (restore_one j p w found)).0 ≡ true
      → (state : Fields) × (found ≡ some state)
        × ((p.restore w state).0 ≡ true)
        × Restores ps entries
            (p.restore w state).1
            (go_on j (restore_all j ps entries) (restore_one j p w found)).1
  restore_one-Restores p ps entries later w none done = ground arith
  restore_one-Restores p ps entries later w (some state) done =
      let (passed, rest) = go_on-Restores ps entries later (p.restore w state) done in
      (state, refl, passed, rest)

  restore_all-Restores : (ps : List (Participant W)) (entries : Fields) → WhenDone ps entries
  unfolding restore_all
  restore_all-Restores [] entries w done = refl
  restore_all-Restores (p ∷ ps) entries w done =
      restore_one-Restores p ps entries (restore_all-Restores ps entries) w
        (snapshot_of j (state_of p entries)) done

  checked-AllAccept :
      (h : Participants W) (w : W) (found : Option Fields) (entries : Fields)
      → checked j h w found ≡ some entries
      → AllAccept w h.participants entries
  checked-AllAccept h w none entries e = ground arith
  checked-AllAccept h w (some es) entries e =
      let (tested, same) =
        tested_if
          (has_exactly (names_of h.participants) es
            && (all_versions j h.participants es && all_pass j h.participants w es))
          es entries e in
      subst (AllAccept w h.participants) same
        (all_pass-AllAccept h.participants w es (ground arith))

  -- the entries that are checked are those of the manifest
  entries_of-IsManifest :
      (h : Participants W) (state : Fields) (o : Option Fields) (entries : Fields)
      → j.detach state ≡ o
      → entries_of j h (detached j state o) ≡ some entries
      → IsManifest h state entries
  entries_of-IsManifest h state none entries d e = ground arith
  entries_of-IsManifest h state (some copy) entries d e = elim (Bool-cases (j.equal copy state)) [
    | inr differs ↦ let e' = rw differs at e in absurd (none_is_not_some entries e')
    | inl same ↦
        let e' = rw same at e in
        let (tested, found) = when_tested _ (dict_in (get "participants" copy)) entries e' in
        (
          copy,
          d,
          same,
          is_text-eq schema_name (get "schema" copy) (ground arith),
          is_text-eq h.identity (get "identity" copy) (ground arith),
          dict_in-eq (get "participants" copy) entries found,
        )
  ]

  checked-found :
      (h : Participants W) (w : W) (found : Option Fields) (entries : Fields)
      → checked j h w found ≡ some entries
      → found ≡ some entries
  checked-found h w none entries e = ground arith
  checked-found h w (some es) entries e =
      ap some
        (tested_if
          (has_exactly (names_of h.participants) es
            && (all_versions j h.participants es && all_pass j h.participants w es))
          es entries e).1

  -- the entries that are restored: those of the manifest, all accepted
  abbrev AreReady : Participants W → W → Fields → Fields → Type 0
  AreReady h w state entries = IsManifest h state entries × AllAccept w h.participants entries

  prepare-AreReady :
      (h : Participants W) (w : W) (state entries : Fields)
      → prepare j h w state ≡ some entries
      → AreReady h w state entries
  unfolding prepare
  prepare-AreReady h w state entries e = elim (Bool-cases h.failed_restore) [
    | inl f ↦ let e' = rw f at e in absurd (none_is_not_some entries e')
    | inr f ↦
        let e' = rw f at e in
        let found = entries_of j h (snapshot_of j (some state)) in
        (
          entries_of-IsManifest h state (j.detach state) entries refl
              (checked-found h w found entries e'),
          checked-AllAccept h w found entries e',
        )
  ]

  after_restore-IsSafe :
      (h : Participants W) (w : W) (state entries : Fields)
      → AreReady h w state entries
      → (ran : Bool × W) → (ran.0 ≡ true → Restores h.participants entries w ran.1)
      → IsSafe h w state (after_restore j h ran)
  after_restore-IsSafe h w state entries (given, accept) (false, w') run =
      ((entries, given, accept), IsDead-after h)
  after_restore-IsSafe h w state entries (given, accept) (true, w') run =
      (refl, (entries, given, accept, run refl))

  restore_prepared-IsSafe :
      (h : Participants W) (w : W) (state : Fields) (found : Option Fields)
      → ((entries : Fields) → found ≡ some entries → AreReady h w state entries)
      → IsSafe h w state (restore_prepared j h w found)
  restore_prepared-IsSafe h w state none ready = (refl, refl)
  restore_prepared-IsSafe h w state (some entries) ready =
      after_restore-IsSafe h w state entries (ready entries refl)
        (restore_all j h.participants entries w) (restore_all-Restores h.participants entries w)

  -- For all participants, every world and every saved value, a restoration ends in one of three ways. It
  -- is refused: then no component was touched. Or one component failed: then the value was a manifest
  -- of this schema and host, before any was restored all components had accepted their states in it,
  -- and no capture, validation or restoration of these participants passes any more. Or it succeeds:
  -- then the value was such a manifest, all components had accepted their states in it, and each has
  -- restored its own, in order, without an error.
  pub restore-IsSafe :
      (h : Participants W) (w : W) (state : Fields) → IsSafe h w state (restore j h w state)
  unfolding restore
  restore-IsSafe h w state =
      restore_prepared-IsSafe h w state (prepare j h w state) (prepare-AreReady h w state)
