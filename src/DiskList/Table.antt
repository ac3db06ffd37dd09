-- ===== src/DiskList/Table.antt =====
-- The table of the records of `DiskBackedList` in src/looplet/_storage.py, and what its statements of
-- SQL do with it.
use looplet.Prelude.{
  Bool, List, Option, [], false, if◌then◌else◌, leb, ltb, none, some, suc, true, zero, ℕ, ◌==◌, ◌∷◌,
}
use looplet.Value.{negsuc, pos, ℤ, pos, negsuc}

pub record Row (P : Type 0) : Type 0 where
  pub position : ℤ
  pub payload : P
  pub weight : ℕ
  pub revision : ℕ

-- comparisons and sums of positions
unfoldable pub is_negative : ℤ → Bool
is_negative (pos n) = false
is_negative (negsuc n) = true

unfoldable pub is_at : ℕ → ℤ → Bool
is_at p (pos n) = n == p
is_at p (negsuc n) = false

unfoldable pub is_above : ℕ → ℤ → Bool
is_above p (pos n) = ltb p n
is_above p (negsuc n) = false

unfoldable pub is_from : ℕ → ℤ → Bool
is_from p (pos n) = leb p n
is_from p (negsuc n) = false

-- `-position` and `-position - 1`
unfoldable pub negated : ℤ → ℤ
negated (pos zero) = pos zero
negated (pos (suc n)) = negsuc n
negated (negsuc n) = pos (suc n)

unfoldable pub complement : ℤ → ℤ
complement (pos n) = negsuc n
complement (negsuc n) = pos n

module _ {P : Type 0} where
  -- `SELECT .. WHERE position = ?`
  unfoldable pub select : ℕ → List (Row P) → Option (Row P)
  select p [] = none
  select p (r ∷ rows) = if is_at p r.position then some r else select p rows

  -- `UPDATE records SET .. WHERE position = ?`
  unfoldable pub update_at : ℕ → (Row P → Row P) → List (Row P) → List (Row P)
  update_at p f [] = []
  update_at p f (r ∷ rows) = (if is_at p r.position then f r else r) ∷ update_at p f rows

  -- `UPDATE records SET position = .. WHERE ..`
  unfoldable pub move_where : (ℤ → Bool) → (ℤ → ℤ) → List (Row P) → List (Row P)
  move_where test to [] = []
  move_where test to (r ∷ rows) =
      (if test r.position then record r { position = to r.position } else r)
      ∷ move_where test to rows

  -- `DELETE FROM records WHERE position = ?`
  unfoldable pub delete_at : ℕ → List (Row P) → List (Row P)
  delete_at p [] = []
  delete_at p (r ∷ rows) =
      let rest = delete_at p rows in if is_at p r.position then rest else r ∷ rest

  -- `INSERT INTO records`, at the place of the key
  unfoldable pub insert_row : ℕ → Row P → List (Row P) → List (Row P)
  insert_row p row [] = row ∷ []
  insert_row p row (r ∷ rows) =
      if is_above p r.position then row ∷ r ∷ rows else r ∷ insert_row p row rows

  -- the two updates that close the gap of a deleted row, and that make room for a new one
  unfoldable pub close_gap : ℕ → List (Row P) → List (Row P)
  close_gap p rows = move_where is_negative complement (move_where (is_above p) negated rows)

  unfoldable pub make_room : ℕ → List (Row P) → List (Row P)
  make_room p rows = move_where is_negative negated (move_where (is_from p) complement rows)
