-- ===== src/DiskDict.antt =====
-- `DiskBackedDict` of src/looplet/_storage.py: values in a table on disk under text keys, and one live
-- value in a cache. The table is the list of its rows in the order of their row number; a key has one
-- row at most, so a statement changes the first that it finds. A row number is the greatest one in the
-- table plus one, as SQLite gives them to a table without AUTOINCREMENT. The codec is the caller's (it
-- has no weight). The lock makes an operation one step.
pub mod Uses
pub mod Rows
pub mod Flush
pub mod Refinement
pub mod Appended
mod Tests
use looplet.Prelude.{
  Bool, List, Option, String, [], false, if◌then◌else◌, is_some, ltb, map, max, none, some, str_eq,
  true, ℕ, ◌+◌, ◌∷◌,
}
use looplet.DiskList.{Codec}

pub record Entry (P : Type 0) : Type 0 where
  pub rowid : ℕ
  pub key : String
  pub payload : P

pub record DiskDict (R P : Type 0) : Type 0 where
  pub records : List (Entry P)
  pub cache : Option (String × R)
  pub cache_payload : Option P

module _ {P : Type 0} where
  abbrev pub last_rowid : List (Entry P) → ℕ
  last_rowid [] = 0
  last_rowid (e ∷ rows) = max e.rowid (last_rowid rows)

  -- `SELECT payload FROM records WHERE key = ?`
  unfoldable pub find_row : String → List (Entry P) → Option P
  find_row k [] = none
  find_row k (e ∷ rows) = if str_eq e.key k then some e.payload else find_row k rows

  -- `UPDATE records SET payload = ? WHERE key = ?`
  unfoldable pub update_row : String → P → List (Entry P) → List (Entry P)
  update_row k payload [] = []
  update_row k payload (e ∷ rows) =
      if str_eq e.key k
      then record e { payload = payload } ∷ rows
      else e ∷ update_row k payload rows

  -- `INSERT INTO records .. ON CONFLICT(key) DO UPDATE ..`, for the next row number
  unfoldable pub put_row : String → P → ℕ → List (Entry P) → List (Entry P)
  put_row k payload rowid [] = record { rowid = rowid; key = k; payload = payload } ∷ []
  put_row k payload rowid (e ∷ rows) =
      if str_eq e.key k
      then record e { payload = payload } ∷ rows
      else e ∷ put_row k payload rowid rows

  -- `DELETE FROM records WHERE key = ?`
  unfoldable pub delete_row : String → List (Entry P) → List (Entry P)
  delete_row k [] = []
  delete_row k (e ∷ rows) =
      let rest = delete_row k rows in if str_eq e.key k then rest else e ∷ rest

module _ {R P : Type 0} (codec : Codec R P) where
  -- the dictionary of the constructor, for a new table
  unfoldable pub disk_dict : DiskDict R P
  disk_dict = record { records = []; cache = none; cache_payload = none }

  abbrev pub is_stored : P → Option P → Bool
  is_stored payload none = false
  is_stored payload (some stored) = codec.same_payload payload stored

  unfoldable pub write_value : String → P → DiskDict R P → DiskDict R P
  write_value k payload s =
      if is_stored payload s.cache_payload
      then s
      else record s { records = update_row k payload s.records; cache_payload = some payload }

  -- `flush`, for the cache
  abbrev pub flush_cached : Option (String × R) → DiskDict R P → DiskDict R P
  flush_cached none s = s
  flush_cached (some (k, value)) s = write_value k (codec.encode value) s

  unfoldable pub flush_dict : DiskDict R P → DiskDict R P
  unfolding write_value
  flush_dict s = flush_cached s.cache s

  abbrev pub cached_value : String → Option (String × R) → Option R
  cached_value k none = none
  cached_value k (some (j, value)) = if str_eq j k then some value else none

  -- `__getitem__`: `none` is the `KeyError`
  abbrev pub load_value : String → Option P → DiskDict R P → Option R × DiskDict R P
  load_value k none s = (none, s)
  load_value k (some payload) s =
      let value = codec.decode payload in
      (some value, record s { cache = some (k, value); cache_payload = some payload })

  abbrev pub get_cached : String → Option R → DiskDict R P → Option R × DiskDict R P
  get_cached k (some value) s = (some value, s)
  get_cached k none s = let s' = flush_dict s in load_value k (find_row k s'.records) s'

  unfoldable pub get_value : String → DiskDict R P → Option R × DiskDict R P
  unfolding flush_dict find_row
  get_value k s = get_cached k (cached_value k s.cache) s

  -- `__setitem__`
  unfoldable pub set_value : String → R → DiskDict R P → DiskDict R P
  set_value k value s' =
      let s = flush_dict s' in
      let payload = codec.encode value in
      record {
        records = put_row k payload (last_rowid s.records + 1) s.records;
        cache = some (k, value);
        cache_payload = some payload;
      }

  -- `__delitem__`: whether the key was there, else a `KeyError`
  unfoldable pub delete_value : String → DiskDict R P → Bool × DiskDict R P
  delete_value k s' =
      let s = flush_dict s' in
      (is_some (find_row k s.records), record s { cache = none; records = delete_row k s.records })

  -- `__iter__`
  unfoldable pub list_keys : DiskDict R P → List String × DiskDict R P
  list_keys s' = let s = flush_dict s' in (map (λ e. e.key) s.records, s)

  -- `items_after`
  abbrev pub rows_after : ℕ → List (Entry P) → List (ℕ × String × R)
  rows_after position [] = []
  rows_after position (e ∷ rows) =
      let rest = rows_after position rows in
      if ltb position e.rowid then (e.rowid, e.key, codec.decode e.payload) ∷ rest else rest

  unfoldable pub items_after : ℕ → DiskDict R P → List (ℕ × String × R) × DiskDict R P
  items_after position s' = let s = flush_dict s' in (rows_after position s.records, s)

  unfoldable pub clear_all : DiskDict R P → DiskDict R P
  clear_all s = record s { cache = none; records = [] }

  -- `transaction`, around a body that ends or raises
  abbrev pub end_transaction : List (Entry P) → Bool → DiskDict R P → DiskDict R P
  end_transaction saved true s = record (flush_dict s) { cache = none }
  end_transaction saved false s = record s { cache = none; records = saved }

  unfoldable pub transaction : (DiskDict R P → Bool × DiskDict R P) → DiskDict R P → DiskDict R P
  transaction body s' =
      let s = record (flush_dict s') { cache = none } in
      let (ended, s₁) = body s in end_transaction s.records ended s₁

abbrev pub edit_entry : {R : Type 0} → (R → R) → Option (String × R) → Option (String × R)
edit_entry f none = none
edit_entry f (some (k, value)) = some (k, f value)

-- A program that holds the live value may change it in place.
unfoldable pub edit_value : {R P : Type 0} → (R → R) → DiskDict R P → DiskDict R P
edit_value f s = record s { cache = edit_entry f s.cache }
