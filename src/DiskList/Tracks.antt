-- ===== src/DiskList/Tracks.antt =====
-- What stays true of a copy that was up to date, while the list on disk is used.
use looplet.Prelude.{
  All, Bool-cases, List, Option, Option-cases, [], ap, arith, false, inl, inr, ltb, none, refl,
  some, true, ℕ, ◌+◌, ◌==◌, ◌∙◌, ◌∷◌, ◌≡◌, ◌≤◌, ◌⊎◌,
}
use looplet.Prelude.Places.{get_elem?}
use looplet.Value.{negsuc, pos, ℤ, pos, negsuc}
use looplet.DiskList.{
  Codec, DiskList, Row, clear, delete_item, delete_position, edit_live, enter, flush, flush_live,
  get_at, get_item, holds_payload, index_of, insert_at, insert_item, insert_position, insert_row,
  is_above, is_at, live_at, open_slot, read_row, select, set_at, set_item, snapshot, sync_live,
  sync_to, sync_weight, total_weight, update_at, weigh, write_back,
}
use looplet.DiskList.Uses.{
  Use, answer_change, answer_read, assigns, clears, copies, deletes, edits, inserts, reads,
  use_all_disk, use_disk, weighs,
}
use looplet.DiskList.Since.{Cursor, is_newer}

-- the number of a cursor is reached
abbrev pub AtMost : ℤ → ℕ → Type 0
AtMost (pos g) n = g ≤ n
AtMost (negsuc g) n = Unit {0}

module _ {R P : Type 0} (codec : Codec R P) (cursor : Cursor) (mirror : List R) where
  -- A row is newer than the cursor, or it holds what the copy has at its place.
  abbrev pub RowTracked : Row P → Type 0
  RowTracked r =
      (is_newer cursor.revision r.revision ≡ true)
      ⊎ ((q : ℕ) (y : R)
          → r.position ≡ pos q
          → get_elem? mirror q ≡ some y
          → codec.decode r.payload ≡ y)

  pub record Tracked (rows : List (Row P)) (generation revision : ℕ) : Type 0 where
    pub reached : AtMost cursor.generation generation
    pub passed : AtMost cursor.revision revision
    pub each : is_at generation cursor.generation ≡ true → All RowTracked rows

  abbrev pub Tracks : DiskList R P → Type 0
  Tracks s = Tracked s.records s.generation s.revision

  AtMost-suc : (i : ℤ) (n : ℕ) → AtMost i n → AtMost i (n + 1)
  AtMost-suc (pos g) n h = omega arith
  AtMost-suc (negsuc g) n h = tt

  AtMost-le : (i : ℤ) (n m : ℕ) → n ≤ m → AtMost i n → AtMost i m
  AtMost-le (pos g) n m more h = omega arith
  AtMost-le (negsuc g) n m more h = tt

  is_newer-suc : (i : ℤ) (n : ℕ) → AtMost i n → is_newer i (n + 1) ≡ true
  unfolding is_newer
  is_newer-suc (pos g) n h = ground arith
  is_newer-suc (negsuc g) n h = refl

  is_at-suc : (i : ℤ) (n : ℕ) → AtMost i n → is_at (n + 1) i ≡ false
  unfolding is_at
  is_at-suc (pos g) n h = ground arith
  is_at-suc (negsuc g) n h = refl

  All-update_at :
      (p : ℕ) (f : Row P → Row P) (rows : List (Row P))
      → ((r : Row P) → RowTracked r → RowTracked (f r))
      → All RowTracked rows
      → All RowTracked (update_at p f rows)
  unfolding update_at
  All-update_at p f [] keeps all = tt
  All-update_at p f (r ∷ rows) keeps (here, all) = elim (Bool-cases (is_at p r.position)) [
    | inl hit ↦ rw (update_at, hit) (keeps r here, All-update_at p f rows keeps all)
    | inr miss ↦ rw (update_at, miss) (here, All-update_at p f rows keeps all)
  ]

  All-insert_row :
      (p : ℕ) (row : Row P) (rows : List (Row P))
      → RowTracked row
      → All RowTracked rows
      → All RowTracked (insert_row p row rows)
  unfolding insert_row
  All-insert_row p row [] new all = (new, tt)
  All-insert_row p row (r ∷ rows) new (here, all) = elim (Bool-cases (is_above p r.position)) [
    | inl above ↦ rw (insert_row, above) (new, (here, all))
    | inr below ↦ rw (insert_row, below) (here, All-insert_row p row rows new all)
  ]

  -- a change of a row that keeps its payload and its number, and one that gives it a new number
  Tracked-kept :
      (p : ℕ) (f : Row P → Row P) (rows : List (Row P)) (g n : ℕ)
      → ((r : Row P) → RowTracked r → RowTracked (f r))
      → Tracked rows g n
      → Tracked (update_at p f rows) g n
  Tracked-kept p f rows g n keeps t = record {
    reached = t.reached;
    passed = t.passed;
    each = λ same. All-update_at p f rows keeps (t.each same);
  }

  Tracked-renewed :
      (p : ℕ) (f : Row P → Row P) (rows : List (Row P)) (g n : ℕ)
      → ((r : Row P) → (f r).revision ≡ n + 1)
      → Tracked rows g n
      → Tracked (update_at p f rows) g (n + 1)
  Tracked-renewed p f rows g n renewed t = record {
    reached = t.reached;
    passed = AtMost-suc cursor.revision n t.passed;
    each = λ same.
        All-update_at p f rows
          (λ r here.
            inl
              (ap (is_newer cursor.revision) (renewed r) ∙ is_newer-suc cursor.revision n t.passed))
          (t.each same);
  }

  -- a new generation leaves the copy behind
  Tracked-left :
      (rows rows' : List (Row P)) (g n m : ℕ) → n ≤ m → Tracked rows g n → Tracked rows' (g + 1) m
  Tracked-left rows rows' g n m more t = record {
    reached = AtMost-suc cursor.generation g t.reached;
    passed = AtMost-le cursor.revision n m more t.passed;
    each = λ same. let no = is_at-suc cursor.generation g t.reached in absurd (ground arith);
  }

  sync_to-Tracks : (p w : ℕ) (s : DiskList R P) → Tracks s → Tracks (sync_to codec p w s)
  unfolding sync_to
  sync_to-Tracks p w s t = elim (Bool-cases (w == s.cache_weight)) [
    | inl same ↦ rw (sync_to, same) t
    | inr other ↦
        rw (sync_to, other)
          (Tracked-kept p (λ r. record r { weight = w }) s.records s.generation s.revision
            (λ r here. here) t)
  ]

  sync_live-Tracks :
      (cache : Option (ℕ × R)) (weight : Option (R → ℕ)) (s : DiskList R P)
      → Tracks s
      → Tracks (sync_live codec cache weight s)
  sync_live-Tracks none weight s t = t
  sync_live-Tracks (some (p, value)) none s t = t
  sync_live-Tracks (some (p, value)) (some f) s t = sync_to-Tracks p (f value) s t

  write_back-Tracks :
      (p : ℕ) (payload : P) (s : DiskList R P) → Tracks s → Tracks (write_back codec p payload s)
  unfolding write_back
  write_back-Tracks p payload s t =
      elim (Bool-cases (holds_payload codec payload s.cache_payload)) [
        | inl same ↦ rw (write_back, same) t
        | inr other ↦
            rw (write_back, other)
              (Tracked-renewed p (λ r. record r { payload = payload; revision = s.revision + 1 })
                s.records s.generation s.revision (λ r. refl) t)
      ]

  flush_live-Tracks :
      (cache : Option (ℕ × R)) (s : DiskList R P) → Tracks s → Tracks (flush_live codec cache s)
  flush_live-Tracks none s t = t
  flush_live-Tracks (some (p, value)) s t = write_back-Tracks p (codec.encode value) s t

  pub flush-Tracks : (s : DiskList R P) → Tracks s → Tracks (flush codec s)
  unfolding flush sync_weight
  flush-Tracks s t =
      flush_live-Tracks s.cache (sync_weight codec s) (sync_live-Tracks s.cache codec.weight s t)

  get_at-Tracks :
      (p : ℕ) (s : DiskList R P) → Tracks s → Tracks (answer_read codec s (get_at codec p s)).1
  unfolding get_at read_row enter
  get_at-Tracks p s t = elim (Option-cases (live_at codec p s.cache)) [
    | inl miss ↦ elim (Option-cases (select p (flush codec s).records)) [
      | inl none_there ↦ rw (get_at, miss, read_row, none_there) t
      | inr (r, there) ↦ rw (get_at, miss, read_row, there) (flush-Tracks s t)
    ]
    | inr (value, hit) ↦ rw (get_at, hit) t
  ]

  set_at-Tracks :
      (p : ℕ) (value : R) (s : DiskList R P)
      → Tracks s
      → Tracks (answer_change codec s (set_at codec p value s)).1
  unfolding set_at enter
  set_at-Tracks p value s t =
      let s₁ = flush codec s in
      elim (Option-cases (select p s₁.records)) [
        | inl none_there ↦ rw (set_at, none_there) t
        | inr (old, there) ↦
            rw (set_at, there)
              (Tracked-renewed p
                (λ r. record r {
                  payload = codec.encode value;
                  weight = weigh codec value;
                  revision = s₁.revision + 1;
                })
                s₁.records s₁.generation s₁.revision (λ r. refl) (flush-Tracks s t))
      ]

  delete_position-Tracks :
      (p : ℕ) (s : DiskList R P)
      → Tracks s
      → Tracks (answer_change codec s (delete_position codec p s)).1
  unfolding delete_position
  delete_position-Tracks p s t =
      let s₁ = flush codec s in
      elim (Option-cases (select p s₁.records)) [
        | inl none_there ↦ rw (delete_position, none_there) t
        | inr (old, there) ↦
            rw (delete_position, there)
              (Tracked-left s₁.records _ s₁.generation s₁.revision s₁.revision (omega arith)
                (flush-Tracks s t))
      ]

  insert_at-Tracks :
      (p : ℕ) (value : R) (s : DiskList R P) → Tracks s → Tracks (insert_at codec p value s)
  unfolding insert_at open_slot enter
  insert_at-Tracks p value s t =
      let s₁ = flush codec s in
      let t₁ = flush-Tracks s t in
      elim (Bool-cases (ltb p s₁.length)) [
        | inl inside ↦
            rw (insert_at, open_slot, inside)
              (Tracked-left s₁.records _ s₁.generation s₁.revision (s₁.revision + 1) (omega arith)
                t₁)
        | inr at_end ↦
            rw (insert_at, open_slot, at_end)
              record {
                reached = t₁.reached;
                passed = AtMost-suc cursor.revision s₁.revision t₁.passed;
                each = λ same.
                    All-insert_row p _ s₁.records
                      (inl (is_newer-suc cursor.revision s₁.revision t₁.passed)) (t₁.each same);
              }
      ]

  at_index-Tracks :
      (s : DiskList R P) (found : Option ℕ) (k : ℕ → Option (DiskList R P))
      → Tracks s
      → ((p : ℕ) → Tracks (answer_change codec s (k p)).1)
      → Tracks (answer_change codec s (elim found [ none ↦ none | some p ↦ k p ])).1
  at_index-Tracks s none k t later = t
  at_index-Tracks s (some p) k t later = later p

  read_index-Tracks :
      (s : DiskList R P) (found : Option ℕ)
      → Tracks s
      → Tracks (answer_read codec s (elim found [ none ↦ none | some p ↦ get_at codec p s ])).1
  read_index-Tracks s none t = t
  read_index-Tracks s (some p) t = get_at-Tracks p s t

  pub use_disk-Tracks : (u : Use R) (s : DiskList R P) → Tracks s → Tracks (use_disk codec u s).1
  unfolding get_item set_item delete_item insert_item clear total_weight snapshot sync_weight
      edit_live
  use_disk-Tracks (reads i) s t = read_index-Tracks s (index_of s.length i) t
  use_disk-Tracks (assigns i value) s t =
      at_index-Tracks s (index_of s.length i) (λ p. set_at codec p value s) t
        (λ p. set_at-Tracks p value s t)
  use_disk-Tracks (deletes i) s t =
      at_index-Tracks s (index_of s.length i) (λ p. delete_position codec p s) t
        (λ p. delete_position-Tracks p s t)
  use_disk-Tracks (inserts i value) s t = insert_at-Tracks (insert_position s.length i) value s t
  use_disk-Tracks clears s t =
      Tracked-left s.records [] s.generation s.revision s.revision (omega arith) t
  use_disk-Tracks (edits f) s t = t
  use_disk-Tracks weighs s t = sync_live-Tracks s.cache codec.weight s t
  use_disk-Tracks copies s t = flush-Tracks s t

  pub use_all_disk-Tracks :
      (us : List (Use R)) (s : DiskList R P) → Tracks s → Tracks (use_all_disk codec us s).1
  use_all_disk-Tracks [] s t = t
  use_all_disk-Tracks (u ∷ us) s t = use_all_disk-Tracks us _ (use_disk-Tracks u s t)
