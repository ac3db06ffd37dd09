-- ===== src/DiskList/Rows.antt =====
-- What the statements on the table do to the list that its rows stand for.
use looplet.Prelude.{
  List, [], arith, false, length, refl, some, suc, true, zero, ℕ, ◌+◌, ◌<◌, ◌∙◌, ◌∷◌, ◌≡◌, ◌≤◌,
}
use looplet.Prelude.Places.{erase_idx, get_elem?, insert_idx, set}
use looplet.Value.{pos, pos}
use looplet.DiskList.{
  Row, close_gap, complement, delete_at, insert_row, is_above, is_at, is_from, is_negative,
  make_room, move_where, negated, select, update_at,
}

module _ {R P : Type 0} (decode : P → R) where
  -- The rows stand, from position `k` on, for these values, and carry these weights.
  abbrev pub Stands : ℕ → List (Row P) → List R → List ℕ → Type 0
  Stands k [] [] [] = Unit {0}
  Stands k (r ∷ rows) (y ∷ ys) (w ∷ ws) =
      (r.position ≡ pos k) × (decode r.payload ≡ y) × (r.weight ≡ w) × Stands (suc k) rows ys ws
  Stands k _ _ _ = ⊥

  pub select-Stands :
      (k j p : ℕ) (rows : List (Row P)) (ys : List R) (ws : List ℕ) (y : R)
      → p ≡ k + j
      → Stands k rows ys ws
      → get_elem? ys j ≡ some y
      → (r : Row P) × (select p rows ≡ some r)
        × (decode r.payload ≡ y)
        × (get_elem? ws j ≡ some r.weight)
  unfolding select is_at
  select-Stands k j p [] [] [] y at st e = cc
  select-Stands k j p [] [] (w ∷ ws) y at st e = absurd st
  select-Stands k j p [] (z ∷ ys) ws y at st e = absurd st
  select-Stands k j p (r ∷ rows) [] ws y at st e = absurd st
  select-Stands k j p (r ∷ rows) (z ∷ ys) [] y at st e = absurd st
  select-Stands k zero p (r ∷ rows) (z ∷ ys) (w ∷ ws) y at (here, d, v, st) e =
      (r, ground arith, ground arith, ground arith)
  select-Stands k (suc j) p (r ∷ rows) (z ∷ ys) (w ∷ ws) y at (here, d, v, st) e =
      let (r', found, value, weight) = select-Stands (suc k) j p rows ys ws y (omega arith) st e in
      (r', ground arith, value, weight)

  -- rows behind a position are not touched by an update at it
  update_at-behind :
      (p k : ℕ) (f : Row P → Row P) (rows : List (Row P)) (ys : List R) (ws : List ℕ)
      → p < k
      → Stands k rows ys ws
      → update_at p f rows ≡ rows
  unfolding update_at is_at
  update_at-behind p k f [] ys ws h st = refl
  update_at-behind p k f (r ∷ rows) [] ws h st = absurd st
  update_at-behind p k f (r ∷ rows) (y ∷ ys) [] h st = absurd st
  update_at-behind p k f (r ∷ rows) (y ∷ ys) (w ∷ ws) h (at, d, v, st) =
      let ih = update_at-behind p (suc k) f rows ys ws (omega arith) st in ground arith

  pub update_at-Stands :
      (k j p : ℕ) (f : Row P → Row P) (rows : List (Row P)) (ys : List R) (ws : List ℕ) (y : R)
      (w : ℕ)
      → p ≡ k + j
      → ((r : Row P) → (f r).position ≡ r.position)
      → ((r : Row P) → select p rows ≡ some r → (decode (f r).payload ≡ y) × ((f r).weight ≡ w))
      → Stands k rows ys ws
      → Stands k (update_at p f rows) (set ys j y) (set ws j w)
  unfolding update_at is_at select
  update_at-Stands k j p f [] [] [] y w at stays gives st = tt
  update_at-Stands k j p f [] [] (v ∷ ws) y w at stays gives st = absurd st
  update_at-Stands k j p f [] (z ∷ ys) ws y w at stays gives st = absurd st
  update_at-Stands k j p f (r ∷ rows) [] ws y w at stays gives st = absurd st
  update_at-Stands k j p f (r ∷ rows) (z ∷ ys) [] y w at stays gives st = absurd st
  update_at-Stands k zero p f (r ∷ rows) (z ∷ ys) (v ∷ ws) y w at stays gives (here, d, e, st) =
      let hit : is_at p r.position ≡ true = ground arith in
      let behind = update_at-behind p (suc k) f rows ys ws (omega arith) st in
      let (d', e') = gives r (rw (select, hit)) in
      rw (update_at, hit, behind) (stays r ∙ here, d', e', st)
  update_at-Stands k (suc j) p f (r ∷ rows) (z ∷ ys) (v ∷ ws) y w at stays gives (here, d, e, st) =
      let missed : is_at p r.position ≡ false = ground arith in
      let ih =
        update_at-Stands (suc k) j p f rows ys ws y w (omega arith) stays
          (λ r' found. gives r' (rw (select, missed) found)) st in
      rw (update_at, missed) (here, d, e, ih)

  -- the rows behind a deleted one move up
  closed-behind :
      (k p : ℕ) (rows : List (Row P)) (ys : List R) (ws : List ℕ)
      → p ≤ k
      → Stands (suc k) rows ys ws
      → Stands k (close_gap p (delete_at p rows)) ys ws
  unfolding close_gap move_where delete_at is_at is_above is_negative negated complement
  closed-behind k p [] [] [] h st = tt
  closed-behind k p [] [] (w ∷ ws) h st = absurd st
  closed-behind k p [] (y ∷ ys) ws h st = absurd st
  closed-behind k p (r ∷ rows) [] ws h st = absurd st
  closed-behind k p (r ∷ rows) (y ∷ ys) [] h st = absurd st
  closed-behind k p (r ∷ rows) (y ∷ ys) (w ∷ ws) h (here, d, v, st) =
      let missed : is_at p r.position ≡ false = ground arith in
      let above : is_above p r.position ≡ true = ground arith in
      let back : is_negative (negated r.position) ≡ true = ground arith in
      let ih = closed-behind (suc k) p rows ys ws (omega arith) st in
      rw (close_gap, delete_at, missed, move_where, above, back) (ground arith, d, v, ih)

  pub close_gap-Stands :
      (k j p : ℕ) (rows : List (Row P)) (ys : List R) (ws : List ℕ)
      → p ≡ k + j
      → j < length ys
      → Stands k rows ys ws
      → Stands k (close_gap p (delete_at p rows)) (erase_idx ys j) (erase_idx ws j)
  unfolding close_gap move_where delete_at is_at is_above is_negative
  close_gap-Stands k j p rows [] ws at h st = absurd (omega arith)
  close_gap-Stands k j p [] (y ∷ ys) ws at h st = absurd st
  close_gap-Stands k j p (r ∷ rows) (y ∷ ys) [] at h st = absurd st
  close_gap-Stands k zero p (r ∷ rows) (y ∷ ys) (w ∷ ws) at h (here, d, v, st) =
      let hit : is_at p r.position ≡ true = ground arith in
      rw (delete_at, hit) (closed-behind k p rows ys ws (omega arith) st)
  close_gap-Stands k (suc j) p (r ∷ rows) (y ∷ ys) (w ∷ ws) at h (here, d, v, st) =
      let missed : is_at p r.position ≡ false = ground arith in
      let below : is_above p r.position ≡ false = ground arith in
      let stays : is_negative r.position ≡ false = ground arith in
      let ih = close_gap-Stands (suc k) j p rows ys ws (omega arith) (omega arith) st in
      rw (close_gap, delete_at, missed, move_where, below, stays) (here, d, v, ih)

  -- the rows from a place on move down
  moved-behind :
      (k p : ℕ) (rows : List (Row P)) (ys : List R) (ws : List ℕ)
      → p ≤ k
      → Stands k rows ys ws
      → Stands (suc k) (make_room p rows) ys ws
  unfolding make_room move_where is_from is_negative negated complement
  moved-behind k p [] [] [] h st = tt
  moved-behind k p [] [] (w ∷ ws) h st = absurd st
  moved-behind k p [] (y ∷ ys) ws h st = absurd st
  moved-behind k p (r ∷ rows) [] ws h st = absurd st
  moved-behind k p (r ∷ rows) (y ∷ ys) [] h st = absurd st
  moved-behind k p (r ∷ rows) (y ∷ ys) (w ∷ ws) h (here, d, v, st) =
      let from : is_from p r.position ≡ true = ground arith in
      let back : is_negative (complement r.position) ≡ true = ground arith in
      let ih = moved-behind (suc k) p rows ys ws (omega arith) st in
      rw (make_room, move_where, from, back) (ground arith, d, v, ih)

  -- a new row stands before the rows behind its place
  insert_row-before :
      (k p : ℕ) (row : Row P) (rows : List (Row P)) (ys : List R) (ws : List ℕ)
      → p < k
      → Stands k rows ys ws
      → insert_row p row rows ≡ row ∷ rows
  unfolding insert_row is_above
  insert_row-before k p row [] ys ws h st = refl
  insert_row-before k p row (r ∷ rows) [] ws h st = absurd st
  insert_row-before k p row (r ∷ rows) (y ∷ ys) [] h st = absurd st
  insert_row-before k p row (r ∷ rows) (y ∷ ys) (w ∷ ws) h (here, d, v, st) = ground arith

  module _ (row : Row P) (value : R) (w : ℕ) (held : decode row.payload ≡ value)
      (weighs : row.weight ≡ w) where
    pub insert_row-Stands :
        (k j p : ℕ) (rows : List (Row P)) (ys : List R) (ws : List ℕ)
        → p ≡ k + j
        → row.position ≡ pos p
        → j < length ys
        → Stands k rows ys ws
        → Stands k (insert_row p row (make_room p rows)) (insert_idx ys j value) (insert_idx ws j w)
    unfolding make_room move_where insert_row is_from is_above is_negative
    insert_row-Stands k j p rows [] ws at it h st = absurd (omega arith)
    insert_row-Stands k j p [] (y ∷ ys) ws at it h st = absurd st
    insert_row-Stands k j p (r ∷ rows) (y ∷ ys) [] at it h st = absurd st
    insert_row-Stands k zero p (r ∷ rows) (y ∷ ys) (v ∷ ws) at it h st =
        let moved = moved-behind k p (r ∷ rows) (y ∷ ys) (v ∷ ws) (omega arith) st in
        rw
          (insert_row-before (suc k) p row (make_room p (r ∷ rows)) (y ∷ ys) (v ∷ ws) (omega arith)
            moved)
          (ground arith, held, weighs, moved)
    insert_row-Stands k (suc j) p (r ∷ rows) (y ∷ ys) (v ∷ ws) at it h (here, d, e, st) =
        let before : is_from p r.position ≡ false = ground arith in
        let stays : is_negative r.position ≡ false = ground arith in
        let below : is_above p r.position ≡ false = ground arith in
        let ih = insert_row-Stands (suc k) j p rows ys ws (omega arith) it (omega arith) st in
        rw (make_room, move_where, before, stays, insert_row, below) (here, d, e, ih)

    -- at the end there is nothing to move
    pub append_row-Stands :
        (k p : ℕ) (rows : List (Row P)) (ys : List R) (ws : List ℕ)
        → p ≡ k + length ys
        → row.position ≡ pos p
        → Stands k rows ys ws
        → Stands k
            (insert_row p row rows)
            (insert_idx ys (length ys) value)
            (insert_idx ws (length ys) w)
    unfolding insert_row is_above
    append_row-Stands k p [] [] [] at it st = (ground arith, held, weighs, tt)
    append_row-Stands k p [] [] (v ∷ ws) at it st = absurd st
    append_row-Stands k p [] (y ∷ ys) ws at it st = absurd st
    append_row-Stands k p (r ∷ rows) [] ws at it st = absurd st
    append_row-Stands k p (r ∷ rows) (y ∷ ys) [] at it st = absurd st
    append_row-Stands k p (r ∷ rows) (y ∷ ys) (v ∷ ws) at it (here, d, e, st) =
        let below : is_above p r.position ≡ false = ground arith in
        let ih = append_row-Stands (suc k) p rows ys ws (omega arith) it st in
        rw (insert_row, below) (here, d, e, ih)
