-- ===== src/DiskList.antt =====
-- `DiskBackedList` of src/looplet/_storage.py: records in a table on disk, and one live record in a
-- cache. The table is the list of its rows in the order of their key, `position`; a statement of SQL
-- is a function on it. The codec and the weight are the caller's; `none` is an error that is raised.
-- Weights are never negative, and a weight that is taken from the total is part of it, so the
-- differences of the source are taken after the sums. The lock makes an operation one step.
mod Table
pub mod Rows
pub mod Settled
pub mod Flush
pub mod Changes
pub mod Uses
pub mod Live
pub mod Refinement
pub mod Since
pub mod Tracks
pub mod Replay
pub mod Copying
mod Tests
mod CopyTests
unfoldable pub use Table.*
use looplet.Prelude.{
  Bool, List, Option, [], false, if◌then◌else◌, ltb, min, none, some, suc, ℕ, ◌*◌, ◌+◌, ◌-◌, ◌==◌,
}
use looplet.Value.{negsuc, pos, ℤ, pos, negsuc}

pub record Codec (R P : Type 0) : Type 0 where
  pub encode : R → P
  pub decode : P → R
  pub same_payload : P → P → Bool
  pub weight : Option (R → ℕ)

-- `self._weight(value) if self._weight is not None else 0`
abbrev pub weigh_by : {R : Type 0} → Option (R → ℕ) → R → ℕ
weigh_by none value = 0
weigh_by (some weight) value = weight value

pub record DiskList (R P : Type 0) : Type 0 where
  pub records : List (Row P)
  pub total : ℕ
  pub cache_weight : ℕ
  pub length : ℕ
  pub cache : Option (ℕ × R)
  pub cache_payload : Option P
  pub generation : ℕ
  pub revision : ℕ

-- `_index`: `none` is the `IndexError`
unfoldable pub index_of : ℕ → ℤ → Option ℕ
index_of len (pos n) = if ltb n len then some n else none
index_of len (negsuc n) = if ltb n len then some (len - suc n) else none

-- the position of an `insert`
unfoldable pub insert_position : ℕ → ℤ → ℕ
insert_position len (pos n) = min n len
insert_position len (negsuc n) = len - suc n

module _ {R P : Type 0} (codec : Codec R P) where
  abbrev pub weigh : R → ℕ
  weigh = weigh_by codec.weight

  -- the list of the constructor, before `extend`
  unfoldable pub disk_list : DiskList R P
  disk_list = record {
    records = [];
    total = 0;
    cache_weight = 0;
    length = 0;
    cache = none;
    cache_payload = none;
    generation = 0;
    revision = 0;
  }

  -- `_sync_weight`, for the weight of the live record
  unfoldable pub sync_to : ℕ → ℕ → DiskList R P → DiskList R P
  sync_to p w s = if w == s.cache_weight then s else record s {
    records = update_at p (λ r. record r { weight = w }) s.records;
    total = s.total + w - s.cache_weight;
    cache_weight = w;
  }

  -- `_sync_weight`, for the cache and the weight function
  abbrev pub sync_live : Option (ℕ × R) → Option (R → ℕ) → DiskList R P → DiskList R P
  sync_live none weight s = s
  sync_live (some (p, value)) none s = s
  sync_live (some (p, value)) (some f) s = sync_to p (f value) s

  unfoldable pub sync_weight : DiskList R P → DiskList R P
  sync_weight s = sync_live s.cache codec.weight s

  abbrev pub holds_payload : P → Option P → Bool
  holds_payload payload none = false
  holds_payload payload (some stored) = codec.same_payload payload stored

  -- the write of a live record that was changed
  unfoldable pub write_back : ℕ → P → DiskList R P → DiskList R P
  write_back p payload s = if holds_payload payload s.cache_payload then s else record s {
    records =
        update_at p (λ r. record r { payload = payload; revision = s.revision + 1 }) s.records;
    cache_payload = some payload;
    revision = s.revision + 1;
  }

  -- `_flush`, for the cache
  abbrev pub flush_live : Option (ℕ × R) → DiskList R P → DiskList R P
  flush_live none s = s
  flush_live (some (p, value)) s = write_back p (codec.encode value) s

  unfoldable pub flush : DiskList R P → DiskList R P
  unfolding sync_weight sync_to write_back
  flush s = flush_live s.cache (sync_weight s)

  -- the value, once it is the live record at its position
  unfoldable pub enter : ℕ → R → P → ℕ → DiskList R P → DiskList R P
  enter p value payload w s = record s {
    cache = some (p, value);
    cache_payload = some payload;
    cache_weight = w;
  }

  -- `__getitem__` of a position
  unfoldable pub read_row : ℕ → DiskList R P → Option (R × DiskList R P)
  read_row p s = elim (select p s.records) [
    | none ↦ none
    | some r ↦
        let value = codec.decode r.payload in some (value, enter p value r.payload r.weight s)
  ]

  abbrev pub live_at : ℕ → Option (ℕ × R) → Option R
  live_at p none = none
  live_at p (some (q, value)) = if q == p then some value else none

  unfoldable pub get_at : ℕ → DiskList R P → Option (R × DiskList R P)
  unfolding read_row
  get_at p s = elim (live_at p s.cache) [
    | some value ↦ some (value, s)
    | none ↦ read_row p (flush s)
  ]

  unfoldable pub get_item : ℤ → DiskList R P → Option (R × DiskList R P)
  unfolding get_at
  get_item i s = elim (index_of s.length i) [ none ↦ none | some p ↦ get_at p s ]

  -- `__setitem__` of a position
  unfoldable pub set_at : ℕ → R → DiskList R P → Option (DiskList R P)
  set_at p value s' =
      let s = flush s' in
      let payload = codec.encode value in
      let w = weigh value in
      elim (select p s.records) [
        | none ↦ none
        | some old ↦ some (
            enter p value payload w (record s {
              records =
                  update_at p
                    (λ r. record r { payload = payload; weight = w; revision = s.revision + 1 })
                    s.records;
              revision = s.revision + 1;
              total = s.total + w - old.weight;
            }))
      ]

  unfoldable pub set_item : ℤ → R → DiskList R P → Option (DiskList R P)
  unfolding set_at
  set_item i value s = elim (index_of s.length i) [ none ↦ none | some p ↦ set_at p value s ]

  -- `__delitem__` of a position
  unfoldable pub delete_position : ℕ → DiskList R P → Option (DiskList R P)
  delete_position p s' =
      let s = flush s' in
      elim (select p s.records) [
        | none ↦ none
        | some old ↦ some (record s {
          cache = none;
          records = close_gap p (delete_at p s.records);
          generation = s.generation + 1;
          length = s.length - 1;
          total = s.total - old.weight;
        })
      ]

  unfoldable pub delete_item : ℤ → DiskList R P → Option (DiskList R P)
  unfolding delete_position
  delete_item i s = elim (index_of s.length i) [ none ↦ none | some p ↦ delete_position p s ]

  -- `insert`
  unfoldable pub open_slot : ℕ → DiskList R P → DiskList R P
  open_slot p s =
      if ltb p s.length
      then record s { records = make_room p s.records; generation = s.generation + 1 }
      else s

  unfoldable pub insert_at : ℕ → R → DiskList R P → DiskList R P
  unfolding open_slot
  insert_at p value s' =
      let payload = codec.encode value in
      let w = weigh value in
      let s = open_slot p (flush s') in
      let row : Row P = record {
        position = pos p;
        payload = payload;
        weight = w;
        revision = s.revision + 1;
      } in
      enter p value payload w (record s {
        records = insert_row p row s.records;
        revision = s.revision + 1;
        length = s.length + 1;
        total = s.total + w;
      })

  unfoldable pub insert_item : ℤ → R → DiskList R P → DiskList R P
  unfolding insert_at
  insert_item i value s = insert_at (insert_position s.length i) value s

  -- `clear`
  unfoldable pub clear : DiskList R P → DiskList R P
  clear s = record s {
    cache = none;
    records = [];
    generation = s.generation + 1;
    length = 0;
    total = 0;
  }

  -- `total_weight`
  abbrev pub weight_answer : Option (R → ℕ) → ℕ → Option ℕ
  weight_answer none t = none
  weight_answer (some f) t = some t

  unfoldable pub total_weight : DiskList R P → Option ℕ × DiskList R P
  total_weight s' = let s = sync_weight s' in (weight_answer codec.weight s.total, s)

  -- `snapshot`: the copy, and the list itself afterwards
  unfoldable pub snapshot : DiskList R P → DiskList R P × DiskList R P
  snapshot s' =
      let s = flush s' in
      (
        record disk_list {
          records = s.records;
          length = s.length;
          total = s.total;
          generation = s.generation;
          revision = s.revision;
        },
        s,
      )

abbrev pub edit_cached : {R : Type 0} → (R → R) → Option (ℕ × R) → Option (ℕ × R)
edit_cached f none = none
edit_cached f (some (p, value)) = some (p, f value)

-- A program that holds the live record may change it in place.
unfoldable pub edit_live : {R P : Type 0} → (R → R) → DiskList R P → DiskList R P
edit_live f s = record s { cache = edit_cached f s.cache }
