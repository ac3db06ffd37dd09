-- ===== src/DiskList/Since.antt =====
-- `changes_since` of `DiskBackedList` in src/looplet/_storage.py: the records that changed behind a
-- cursor. The rows are read at once; the source reads them while it holds the lock of the list.
use looplet.Prelude.{
  Bool, List, Option, [], false, if◌then◌else◌, ltb, min, none, not, some, true, ℕ, ◌&&◌, ◌||◌, ◌∷◌,
}
use looplet.Value.{negsuc, pos, ℤ, pos, negsuc}
use looplet.DiskList.{Codec, DiskList, Row, flush, is_at, is_from}

-- `(generation, revision, length)`
pub record Cursor : Type 0 where
  pub generation : ℤ
  pub revision : ℤ
  pub length : ℕ

pub record Changed (R : Type 0) : Type 0 where
  pub generation : ℕ
  pub revision : ℕ
  pub records : List (ℤ × R)

-- `revision > ?`
unfoldable pub is_newer : ℤ → ℕ → Bool
is_newer (pos r) n = ltb r n
is_newer (negsuc r) n = true

-- the conditions of the query, for a cursor's revision and length
unfoldable pub is_change : {P : Type 0} → ℤ → ℕ → ℕ → Row P → Bool
unfolding is_newer
is_change revision length stop r =
    (is_newer revision r.revision && not (is_from (min length stop) r.position))
    || (is_from length r.position && not (is_from stop r.position))

-- the cursor is of another generation, or behind `stop`
abbrev pub is_reset : ℕ → Cursor → ℕ → Bool
is_reset generation cursor stop = not (is_at generation cursor.generation) || ltb stop cursor.length

module _ {R P : Type 0} (codec : Codec R P) where
  unfoldable pub list_changes : ℤ → ℕ → ℕ → List (Row P) → List (ℤ × R)
  unfolding is_change
  list_changes revision length stop [] = []
  list_changes revision length stop (r ∷ rows) =
      let rest = list_changes revision length stop rows in
      if is_change revision length stop r then (r.position, codec.decode r.payload) ∷ rest else rest

  abbrev pub changes_by : Cursor → ℕ → List (Row P) → Bool → List (ℤ × R)
  changes_by cursor stop rows true = list_changes (negsuc 0) 0 stop rows
  changes_by cursor stop rows false = list_changes cursor.revision cursor.length stop rows

  -- the answer, or the `IndexError`, and the list afterwards
  unfoldable pub changes_since : Cursor → ℕ → DiskList R P → Option (Changed R) × DiskList R P
  unfolding list_changes
  changes_since cursor stop s' =
      let s = flush codec s' in
      if ltb s.length stop then (none, s) else (
        some (record {
          generation = s.generation;
          revision = s.revision;
          records = changes_by cursor stop s.records (is_reset s.generation cursor stop);
        }),
        s,
      )
