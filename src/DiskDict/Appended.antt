-- ===== src/DiskDict/Appended.antt =====
-- What `items_after` lists: the entries that came to the table behind a row number.
use looplet.Prelude.{
  All, Bool, Bool-cases, List, Option, String, [], ap, arith, drop, false, inl, inr, length, ltb,
  map, max, none, refl, some, str_eq, suc, true, zero, ℕ, ◌+◌, ◌<◌, ◌∙◌, ◌∷◌, ◌≡◌, ◌≤◌,
}
use looplet.DiskList.{Codec}
use looplet.DiskList.Settled.{IsLossless}
use looplet.DiskDict.{
  DiskDict, Entry, disk_dict, edit_value, flush_cached, flush_dict, get_cached, get_value,
  is_stored, items_after, last_rowid, list_keys, load_value, put_row, rows_after, set_value,
  update_row, write_value,
}
use looplet.DiskDict.Uses.{
  Keyed, Stage, Use, assigns, clears, counts, deletes, edits, lists, reads, run_dict, run_keyed,
  use_all_dict, use_all_keyed, use_dict,
}
use looplet.DiskDict.Rows.{length-view, view}
use looplet.DiskDict.Flush.{flush-Settled}
use looplet.DiskDict.Refinement.{run-Agrees, use_all-Agree}

-- a use that takes no row away
abbrev pub is_appending : {R : Type 0} → Use R → Bool
is_appending (deletes k) = false
is_appending clears = false
is_appending _ = true

abbrev pub unnumbered : {R : Type 0} → ℕ × String × R → String × R
unnumbered (rowid, k, value) = (k, value)

module _ {P : Type 0} where
  -- the first `n` rows have numbers up to `position`, the others have greater ones
  abbrev pub Parted : ℕ → ℕ → List (Entry P) → Type 0
  Parted position zero [] = Unit {0}
  Parted position zero (e ∷ rows) = (position < e.rowid) × Parted position zero rows
  Parted position (suc n) [] = ⊥
  Parted position (suc n) (e ∷ rows) = (e.rowid ≤ position) × Parted position n rows

  Parted-put_row :
      (position n : ℕ) (k : String) (p : P) (rowid : ℕ) (rows : List (Entry P))
      → position < rowid
      → Parted position n rows
      → Parted position n (put_row k p rowid rows)
  unfolding put_row
  Parted-put_row position zero k p rowid [] new parted = (new, tt)
  Parted-put_row position (suc n) k p rowid [] new parted = absurd parted
  Parted-put_row position zero k p rowid (e ∷ rows) new (here, parted) =
      elim (Bool-cases (str_eq e.key k)) [
        | inl hit ↦ rw (put_row, hit) (here, parted)
        | inr miss ↦
            rw (put_row, miss) (here, Parted-put_row position zero k p rowid rows new parted)
      ]
  Parted-put_row position (suc n) k p rowid (e ∷ rows) new (here, parted) =
      elim (Bool-cases (str_eq e.key k)) [
        | inl hit ↦ rw (put_row, hit) (here, parted)
        | inr miss ↦ rw (put_row, miss) (here, Parted-put_row position n k p rowid rows new parted)
      ]

  Parted-update_row :
      (position n : ℕ) (k : String) (p : P) (rows : List (Entry P))
      → Parted position n rows
      → Parted position n (update_row k p rows)
  unfolding update_row
  Parted-update_row position zero k p [] parted = parted
  Parted-update_row position (suc n) k p [] parted = parted
  Parted-update_row position zero k p (e ∷ rows) (here, parted) =
      elim (Bool-cases (str_eq e.key k)) [
        | inl hit ↦ rw (update_row, hit) (here, parted)
        | inr miss ↦ rw (update_row, miss) (here, Parted-update_row position zero k p rows parted)
      ]
  Parted-update_row position (suc n) k p (e ∷ rows) (here, parted) =
      elim (Bool-cases (str_eq e.key k)) [
        | inl hit ↦ rw (update_row, hit) (here, parted)
        | inr miss ↦ rw (update_row, miss) (here, Parted-update_row position n k p rows parted)
      ]

  last_rowid-put_row :
      (k : String) (p : P) (rowid : ℕ) (rows : List (Entry P))
      → last_rowid rows ≤ last_rowid (put_row k p rowid rows)
  unfolding put_row
  last_rowid-put_row k p rowid [] = omega arith
  last_rowid-put_row k p rowid (e ∷ rows) = elim (Bool-cases (str_eq e.key k)) [
    | inl hit ↦ rw (put_row, hit) (omega arith)
    | inr miss ↦ rw (put_row, miss) (omega (arith, last_rowid-put_row k p rowid rows))
  ]

  last_rowid-update_row :
      (k : String) (p : P) (rows : List (Entry P))
      → last_rowid (update_row k p rows) ≡ last_rowid rows
  unfolding update_row
  last_rowid-update_row k p [] = refl
  last_rowid-update_row k p (e ∷ rows) = elim (Bool-cases (str_eq e.key k)) [
    | inl hit ↦ rw (update_row, hit) refl
    | inr miss ↦ rw (update_row, miss) (ap (max e.rowid) (last_rowid-update_row k p rows))
  ]

  -- all rows that are there when a copy is made
  Parted-start :
      (position : ℕ) (rows : List (Entry P))
      → last_rowid rows ≤ position
      → Parted position (length rows) rows
  Parted-start position [] h = tt
  Parted-start position (e ∷ rows) h = (omega arith, Parted-start position rows (omega arith))

module _ {R P : Type 0} (codec : Codec R P) where
  -- what is listed behind a row number is the rest of the dictionary
  rows_after-drop :
      (position n : ℕ) (rows : List (Entry P))
      → Parted position n rows
      → map unnumbered (rows_after codec position rows) ≡ drop n (view codec.decode rows)
  rows_after-drop position zero [] parted = refl
  rows_after-drop position (suc n) [] parted = absurd parted
  rows_after-drop position zero (e ∷ rows) (here, parted) =
      let new : ltb position e.rowid ≡ true = ground arith in
      rw new
        (ap (λ d. (e.key, codec.decode e.payload) ∷ d) (rows_after-drop position zero rows parted))
  rows_after-drop position (suc n) (e ∷ rows) (here, parted) =
      let old : ltb position e.rowid ≡ false = ground arith in
      rw old (rows_after-drop position n rows parted)

  module _ (position n : ℕ) where
    abbrev Keeps : DiskDict R P → Type 0
    Keeps s = Parted position n s.records × (position ≤ last_rowid s.records)

    write_value-Keeps :
        (k : String) (p : P) (s : DiskDict R P) → Keeps s → Keeps (write_value codec k p s)
    unfolding write_value
    write_value-Keeps k p s (parted, up) = elim (Bool-cases (is_stored codec p s.cache_payload)) [
      | inl same ↦ rw (write_value, same) (parted, up)
      | inr other ↦
          rw (write_value, other)
            (
              Parted-update_row position n k p s.records parted,
              omega (arith, last_rowid-update_row k p s.records),
            )
    ]

    flush_cached-Keeps :
        (cache : Option (String × R)) (s : DiskDict R P)
        → Keeps s
        → Keeps (flush_cached codec cache s)
    flush_cached-Keeps none s keeps = keeps
    flush_cached-Keeps (some (k, value)) s keeps = write_value-Keeps k (codec.encode value) s keeps

    flush-Keeps : (s : DiskDict R P) → Keeps s → Keeps (flush_dict codec s)
    unfolding flush_dict
    flush-Keeps s keeps = flush_cached-Keeps s.cache s keeps

    load_value-Keeps :
        (k : String) (row : Option P) (s : DiskDict R P)
        → Keeps s
        → Keeps (load_value codec k row s).1
    load_value-Keeps k none s keeps = keeps
    load_value-Keeps k (some p) s keeps = keeps

    get_cached-Keeps :
        (k : String) (live : Option R) (s : DiskDict R P)
        → Keeps s
        → Keeps (get_cached codec k live s).1
    get_cached-Keeps k none s keeps =
        load_value-Keeps k _ (flush_dict codec s) (flush-Keeps s keeps)
    get_cached-Keeps k (some value) s keeps = keeps

    use_dict-Keeps :
        (u : Use R) (s : DiskDict R P)
        → is_appending u ≡ true
        → Keeps s
        → Keeps (use_dict codec u s).1
    unfolding get_value set_value list_keys edit_value
    use_dict-Keeps (reads k) s a keeps = get_cached-Keeps k _ s keeps
    use_dict-Keeps (deletes k) s a keeps = ground arith
    use_dict-Keeps (assigns k value) s a keeps =
        let (parted, up) = flush-Keeps s keeps in
        let rows = (flush_dict codec s).records in
        (
          Parted-put_row position n k (codec.encode value) (last_rowid rows + 1) rows (omega arith)
              parted,
          omega (arith, last_rowid-put_row k (codec.encode value) (last_rowid rows + 1) rows),
        )
    use_dict-Keeps (edits f) s a keeps = keeps
    use_dict-Keeps counts s a keeps = keeps
    use_dict-Keeps lists s a keeps = flush-Keeps s keeps
    use_dict-Keeps clears s a keeps = ground arith

    use_all-Keeps :
        (us : List (Use R)) (s : DiskDict R P)
        → All (λ u. is_appending u ≡ true) us
        → Keeps s
        → Keeps (use_all_dict codec us s).1
    use_all-Keeps [] s all keeps = keeps
    use_all-Keeps (u ∷ us) s (a, all) keeps = use_all-Keeps us _ all (use_dict-Keeps u s a keeps)

  -- After any steps, take the last row number of the flushed table; after further uses that delete no key
  -- and do not clear, the entries behind that number are those that were added since, with their values
  -- now and in their order, if the codec loses nothing and payloads that compare equal are equal.
  pub items_after-drop :
      (lossless : IsLossless codec) (ts : List (Stage R)) (us : List (Use R))
      → All (λ u. is_appending u ≡ true) us
      → let s = flush_dict codec (run_dict codec ts (disk_dict codec)).1 in
        let l = (run_keyed ts (record { items = []; focus = none })).1 in
        map unnumbered (items_after codec (last_rowid s.records) (use_all_dict codec us s).1).0
        ≡ drop (length l.items) (use_all_keyed us l).1.items
  unfolding items_after disk_dict
  items_after-drop lossless ts us all =
      let start : Keyed R = record { items = []; focus = none } in
      let t = (run_dict codec ts (disk_dict codec)).1 in
      let s = flush_dict codec t in
      let l = (run_keyed ts start).1 in
      let (ref, items) =
        flush-Settled codec lossless t l
          (run-Agrees codec lossless ts (disk_dict codec) start (refl, refl)).1 in
      let (ref₁, items₁) =
        flush-Settled codec lossless (use_all_dict codec us s).1 (use_all_keyed us l).1
          (use_all-Agree codec lossless us s l ref).1 in
      let count : length s.records ≡ length l.items =
        length-view codec.decode s.records ∙ ap length items in
      let (parted, up) =
        flush-Keeps (last_rowid s.records) (length s.records) (use_all_dict codec us s).1 (
          use_all-Keeps (last_rowid s.records) (length s.records) us s all
            (Parted-start (last_rowid s.records) s.records (omega arith), omega arith)) in
      rows_after-drop (last_rowid s.records) (length s.records) _ parted
      ∙ ap (λ n. drop n (view codec.decode (flush_dict codec (use_all_dict codec us s).1).records))
          count
      ∙ ap (drop (length l.items)) items₁
