-- ===== src/DiskList/Replay.antt =====
-- A copy that takes over the records of `changes_since` is the list, up to where they were asked for.
use mathlib.Core.List.{append_assoc}
use looplet.Prelude.{
  All, Bool, Bool-cases, List, [], ap, arith, drop, false, if◌then◌else◌, inl, inr, leb, length,
  ltb, ltb→lt, map, min, not, refl, some, suc, sym, take, true, zero, ℕ, ◌&&◌, ◌++◌, ◌+◌, ◌-◌, ◌<◌,
  ◌||◌, ◌∙◌, ◌∷◌, ◌≡◌, ◌≤◌,
}
use looplet.Prelude.Places.{get_elem?}
use looplet.Value.{negsuc, pos, ℤ, pos, negsuc}
use looplet.DiskList.{Codec, Row, is_from}
use looplet.DiskList.Rows.{Stands}
use looplet.DiskList.Since.{Cursor, is_change, is_newer, list_changes}
use looplet.DiskList.Tracks.{RowTracked}

module _ {R : Type 0} where
  -- a record put at its place, or at the end
  abbrev pub put_at : List R → ℕ → R → List R
  put_at [] i v = v ∷ []
  put_at (x ∷ xs) zero v = v ∷ xs
  put_at (x ∷ xs) (suc i) v = x ∷ put_at xs i v

  abbrev pub put : ℤ → R → List R → List R
  put (pos i) v xs = put_at xs i v
  put (negsuc i) v xs = xs

  abbrev pub replay : List (ℤ × R) → List R → List R
  replay [] xs = xs
  replay ((i, v) ∷ cs) xs = replay cs (put i v xs)

  put_at-append :
      (xs ms : List R) (k : ℕ) (v : R)
      → length xs ≡ k
      → put_at (xs ++ ms) k v ≡ (xs ++ v ∷ []) ++ drop 1 ms
  put_at-append [] [] zero v e = refl
  put_at-append [] (m ∷ ms) zero v e = refl
  put_at-append [] ms (suc k) v e = absurd (omega arith)
  put_at-append (x ∷ xs) ms zero v e = absurd (omega arith)
  put_at-append (x ∷ xs) ms (suc k) v e = ap (λ ys. x ∷ ys) (put_at-append xs ms k v (omega arith))

  length-last : (xs : List R) (v : R) (k : ℕ) → length xs ≡ k → length (xs ++ v ∷ []) ≡ suc k
  length-last [] v k e = omega arith
  length-last (x ∷ xs) v zero e = absurd (omega arith)
  length-last (x ∷ xs) v (suc k) e = omega (arith, length-last xs v k (omega arith))

  empty_of_length : (xs : List R) → length xs ≤ 0 → xs ≡ []
  empty_of_length [] h = refl
  empty_of_length (x ∷ xs) h = absurd (omega arith)

  take-nil : (n : ℕ) → take {A = R} n [] ≡ []
  take-nil zero = refl
  take-nil (suc n) = refl

  take_within :
      (stop k : ℕ) (y : R) (ys : List R)
      → k < stop
      → take (stop - k) (y ∷ ys) ≡ y ∷ take (stop - suc k) ys
  take_within stop k y ys h =
      let one_more : stop - k ≡ suc (stop - suc k) = omega arith in
      ap (λ n. take n (y ∷ ys)) one_more

  take_past : (stop k : ℕ) (ys : List R) → stop ≤ k → take (stop - k) ys ≡ []
  take_past stop k ys h =
      let none_left : stop - k ≡ 0 = omega arith in ap (λ n. take n ys) none_left

is_change_at :
    {P : Type 0} (i : ℤ) (len stop k : ℕ) (r : Row P)
    → r.position ≡ pos k
    → is_change i len stop r
      ≡ ((is_newer i r.revision && not (leb (min len stop) k)) || (leb len k && not (leb stop k)))
unfolding is_change is_from
is_change_at i len stop k r here = rw (here) refl

module _ {R P : Type 0} (codec : Codec R P) where
  row_changes :
      (i : ℤ) (len stop : ℕ) (r : Row P) (rows : List (Row P)) (b : Bool)
      → is_change i len stop r ≡ b
      → list_changes codec i len stop (r ∷ rows) ≡ (
          if b
          then (r.position, codec.decode r.payload) ∷ list_changes codec i len stop rows
          else list_changes codec i len stop rows)
  unfolding list_changes
  row_changes i len stop r rows b e = rw (e) refl

  -- behind `stop` nothing is listed
  list_changes-behind :
      (i : ℤ) (len stop k : ℕ) (rows : List (Row P)) (ys : List R) (ws : List ℕ)
      → stop ≤ k
      → Stands codec.decode k rows ys ws
      → list_changes codec i len stop rows ≡ []
  unfolding list_changes
  list_changes-behind i len stop k [] ys ws h st = refl
  list_changes-behind i len stop k (r ∷ rows) [] ws h st = absurd st
  list_changes-behind i len stop k (r ∷ rows) (y ∷ ys) [] h st = absurd st
  list_changes-behind i len stop k (r ∷ rows) (y ∷ ys) (w ∷ ws) h (here, d, v, st) =
      let no : is_change i len stop r ≡ false = is_change_at i len stop k r here ∙ ground arith in
      row_changes i len stop r rows false no
      ∙ list_changes-behind i len stop (suc k) rows ys ws (omega arith) st

  -- from no copy, everything up to `stop` is listed
  pub list_changes-all :
      (stop k : ℕ) (rows : List (Row P)) (ys : List R) (ws : List ℕ)
      → Stands codec.decode k rows ys ws
      → map (λ c. c.1) (list_changes codec (negsuc 0) 0 stop rows) ≡ take (stop - k) ys
  unfolding list_changes
  list_changes-all stop k [] [] ws st = sym (take-nil (stop - k))
  list_changes-all stop k [] (y ∷ ys) ws st = absurd st
  list_changes-all stop k (r ∷ rows) [] ws st = absurd st
  list_changes-all stop k (r ∷ rows) (y ∷ ys) [] st = absurd st
  list_changes-all stop k (r ∷ rows) (y ∷ ys) (w ∷ ws) (here, d, v, st) =
      elim (Bool-cases (ltb k stop)) [
        | inl within ↦
            let yes_ : is_change (negsuc 0) 0 stop r ≡ true =
              is_change_at (negsuc 0) 0 stop k r here ∙ ground arith in
            ap (map (λ c. c.1)) (row_changes (negsuc 0) 0 stop r rows true yes_)
            ∙ ap (λ x. x ∷ map (λ c. c.1) (list_changes codec (negsuc 0) 0 stop rows)) d
            ∙ ap (λ xs. y ∷ xs) (list_changes-all stop (suc k) rows ys ws st)
            ∙ sym (take_within stop k y ys (ltb→lt _ _ within))
        | inr past ↦
            let h : stop ≤ k = ground arith in
            ap (map (λ c. c.1)) (
              list_changes-behind (negsuc 0) 0 stop k (r ∷ rows) (y ∷ ys) (w ∷ ws) h
                (here, d, v, st))
            ∙ sym (take_past stop k (y ∷ ys) h)
      ]

  module _ (cursor : Cursor) (mirror : List R) (stop : ℕ) where
    abbrev pub listed : List (Row P) → List (ℤ × R)
    listed rows = list_changes codec cursor.revision cursor.length stop rows

    -- what is known of the copy while the rows from `k` on are replayed: `xs` is done, `ms` is old
    abbrev pub Remaining : ℕ → List R → Type 0
    Remaining k ms =
        ((j : ℕ) → get_elem? ms j ≡ get_elem? mirror (k + j)) × (length ms ≡ cursor.length - k)

    Remaining-drop : (k : ℕ) (ms : List R) → Remaining k ms → Remaining (suc k) (drop 1 ms)
    Remaining-drop k [] (same, len) =
        (λ j. same (suc j) ∙ ap (get_elem? mirror) (omega arith), omega arith)
    Remaining-drop k (m ∷ ms) (same, len) =
        (λ j. same (suc j) ∙ ap (get_elem? mirror) (omega arith), omega arith)

    -- a row that is not listed is in the copy already
    held_row :
        (k : ℕ) (r : Row P) (xs ms : List R) (y : R)
        → r.position ≡ pos k
        → codec.decode r.payload ≡ y
        → RowTracked codec cursor mirror r
        → Remaining k ms
        → k < stop
        → is_change cursor.revision cursor.length stop r ≡ false
        → xs ++ ms ≡ (xs ++ y ∷ []) ++ drop 1 ms
    held_row k r xs [] y here d tracked (same, len) h kept =
        let e = sym (is_change_at cursor.revision cursor.length stop k r here) ∙ kept in
        absurd (ground arith)
    held_row k r xs (m ∷ ms) y here d (inl newer) (same, len) h kept =
        let e = sym (is_change_at cursor.revision cursor.length stop k r here) ∙ kept in
        absurd (ground arith)
    held_row k r xs (m ∷ ms) y here d (inr holds) (same, len) h kept =
        let at : get_elem? mirror k ≡ some m = ap (get_elem? mirror) (omega arith) ∙ sym (same 0) in
        let old : m ≡ y = sym (holds k m here at) ∙ d in
        ap (λ u. xs ++ u ∷ ms) old ∙ sym (append_assoc xs (y ∷ []) ms)

    pub replay-Stands :
        (k : ℕ) (rows : List (Row P)) (ys : List R) (ws : List ℕ) (xs ms : List R)
        → Stands codec.decode k rows ys ws
        → All (RowTracked codec cursor mirror) rows
        → length xs ≡ k
        → Remaining k ms
        → cursor.length ≤ stop
        → stop ≤ k + length ys
        → replay (listed rows) (xs ++ ms) ≡ xs ++ take (stop - k) ys
    unfolding list_changes
    replay-Stands k [] [] ws xs ms st all at (same, len) less within =
        let nothing : ms ≡ [] = empty_of_length ms (omega arith) in
        ap (λ zs. xs ++ zs) (nothing ∙ sym (take-nil (stop - k)))
    replay-Stands k [] (y ∷ ys) ws xs ms st all at left less within = absurd st
    replay-Stands k (r ∷ rows) [] ws xs ms st all at left less within = absurd st
    replay-Stands k (r ∷ rows) (y ∷ ys) [] xs ms st all at left less within = absurd st
    replay-Stands k (r ∷ rows) (y ∷ ys) (w ∷ ws) xs ms (here, d, v, st) (tracked, all) at left less
          within =
        let i = cursor.revision in
        let len = cursor.length in
        let next : replay (listed rows) ((xs ++ y ∷ []) ++ drop 1 ms)
            ≡ (xs ++ y ∷ []) ++ take (stop - suc k) ys =
          replay-Stands (suc k) rows ys ws (xs ++ y ∷ []) (drop 1 ms) st all (length-last xs y k at)
            (Remaining-drop k ms left) less (omega arith) in
        elim (Bool-cases (ltb k stop)) [
          | inl inside ↦
              let h = ltb→lt _ _ inside in
              let rest : (xs ++ y ∷ []) ++ take (stop - suc k) ys ≡ xs ++ take (stop - k) (y ∷ ys) =
                append_assoc xs (y ∷ []) (take (stop - suc k) ys)
                ∙ ap (λ zs. xs ++ zs) (sym (take_within stop k y ys h)) in
              elim (Bool-cases (is_change i len stop r)) [
                | inl change ↦
                    ap (λ cs. replay cs (xs ++ ms)) (row_changes i len stop r rows true change)
                    ∙ ap (λ q. replay (listed rows) (put q (codec.decode r.payload) (xs ++ ms)))
                        here
                    ∙ ap (λ u. replay (listed rows) (put_at (xs ++ ms) k u)) d
                    ∙ ap (replay (listed rows)) (put_at-append xs ms k y at)
                    ∙ next
                    ∙ rest
                | inr kept ↦
                    ap (λ cs. replay cs (xs ++ ms)) (row_changes i len stop r rows false kept)
                    ∙ ap (replay (listed rows)) (held_row k r xs ms y here d tracked left h kept)
                    ∙ next
                    ∙ rest
              ]
          | inr past ↦
              let h : stop ≤ k = ground arith in
              let nothing : ms ≡ [] = empty_of_length ms (ground (arith, left.1)) in
              ap (λ cs. replay cs (xs ++ ms))
                (list_changes-behind i len stop k (r ∷ rows) (y ∷ ys) (w ∷ ws) h (here, d, v, st))
              ∙ ap (λ zs. xs ++ zs) (nothing ∙ sym (take_past stop k (y ∷ ys) h))
        ]
