-- ===== src/DiskDict/Rows.antt =====
-- What the statements on the table do to the dictionary that its rows stand for.
use looplet.Prelude.{
  Bool-cases, List, String, [], ap, arith, eq_iff, inl, inr, is_some, length, map, none, refl, some,
  some-injective, str_eq, suc, sym, ℕ, ◌∙◌, ◌∷◌, ◌≡◌,
}
use looplet.Prelude.Dict.{Dict, insert, keys, lookup, lookup-insert, remove}
use looplet.DiskDict.{Entry, delete_row, find_row, put_row, update_row}

module _ {R P : Type 0} (decode : P → R) where
  abbrev pub view : List (Entry P) → Dict R
  view rows = map (λ e. (e.key, decode e.payload)) rows

  pub find_row-none :
      (k : String) (rows : List (Entry P)) → find_row k rows ≡ none → lookup k (view rows) ≡ none
  unfolding find_row
  find_row-none k [] e = refl
  find_row-none k (r ∷ rows) e = ground (arith, find_row-none k rows)

  pub find_row-some :
      (k : String) (p : P) (rows : List (Entry P))
      → find_row k rows ≡ some p
      → lookup k (view rows) ≡ some (decode p)
  unfolding find_row
  find_row-some k p [] e = ground arith
  find_row-some k p (r ∷ rows) e = elim (Bool-cases (str_eq r.key k)) [
    | inl hit ↦
        let e' = rw (find_row, hit) at e in rw (hit) (ap some (ap decode (some-injective _ p e')))
    | inr miss ↦ let e' = rw (find_row, miss) at e in rw (miss) (find_row-some k p rows e')
  ]

  pub view-put_row :
      (k : String) (p : P) (n : ℕ) (rows : List (Entry P))
      → view (put_row k p n rows) ≡ insert k (decode p) (view rows)
  unfolding put_row
  view-put_row k p n [] = refl
  view-put_row k p n (r ∷ rows) = elim (Bool-cases (str_eq r.key k)) [
    | inl hit ↦ rw (put_row, hit) refl
    | inr miss ↦
        rw (put_row, miss) (ap (λ d. (r.key, decode r.payload) ∷ d) (view-put_row k p n rows))
  ]

  pub view-update_row :
      (k : String) (p : P) (v : R) (rows : List (Entry P))
      → lookup k (view rows) ≡ some v
      → view (update_row k p rows) ≡ insert k (decode p) (view rows)
  unfolding update_row
  view-update_row k p v [] e = ground arith
  view-update_row k p v (r ∷ rows) e = elim (Bool-cases (str_eq r.key k)) [
    | inl hit ↦ rw (update_row, hit) refl
    | inr miss ↦
        let e' = rw miss at e in
        rw (update_row, miss)
          (ap (λ d. (r.key, decode r.payload) ∷ d) (view-update_row k p v rows e'))
  ]

  pub view-delete_row :
      (k : String) (rows : List (Entry P)) → view (delete_row k rows) ≡ remove k (view rows)
  unfolding delete_row
  view-delete_row k [] = refl
  view-delete_row k (r ∷ rows) = elim (Bool-cases (str_eq r.key k)) [
    | inl hit ↦ rw (delete_row, hit) (view-delete_row k rows)
    | inr miss ↦
        rw (delete_row, miss) (ap (λ d. (r.key, decode r.payload) ∷ d) (view-delete_row k rows))
  ]

  pub is_some-find_row :
      (k : String) (rows : List (Entry P))
      → is_some (find_row k rows) ≡ is_some (lookup k (view rows))
  unfolding find_row
  is_some-find_row k [] = refl
  is_some-find_row k (r ∷ rows) = ground (arith, is_some-find_row k rows)

  pub keys-view : (rows : List (Entry P)) → map (λ e. e.key) rows ≡ keys (view rows)
  keys-view [] = refl
  keys-view (r ∷ rows) = ap (λ ks. r.key ∷ ks) (keys-view rows)

  pub length-view : (rows : List (Entry P)) → length rows ≡ length (view rows)
  length-view [] = refl
  length-view (r ∷ rows) = omega (arith, length-view rows)

module _ {R : Type 0} where
  pub insert_same : (k : String) (v : R) (d : Dict R) → lookup k d ≡ some v → insert k v d ≡ d
  insert_same k v [] e = ground arith
  insert_same k v ((j, w) ∷ d) e = elim (Bool-cases (str_eq j k)) [
    | inl hit ↦ let e' = rw hit at e in rw hit (ap (λ u. (j, u) ∷ d) (sym (some-injective w v e')))
    | inr miss ↦ let e' = rw miss at e in rw miss (ap (λ xs. (j, w) ∷ xs) (insert_same k v d e'))
  ]

  pub insert-insert : (k : String) (u v : R) (d : Dict R) → insert k u (insert k v d) ≡ insert k u d
  insert-insert k u v [] = rw ((eq_iff k k).1 refl) refl
  insert-insert k u v ((j, w) ∷ d) = elim (Bool-cases (str_eq j k)) [
    | inl hit ↦ rw (hit, hit) refl
    | inr miss ↦ rw (miss, miss) (ap (λ xs. (j, w) ∷ xs) (insert-insert k u v d))
  ]

  pub length-insert :
      (k : String) (v w : R) (d : Dict R) → lookup k d ≡ some w → length (insert k v d) ≡ length d
  length-insert k v w [] e = ground arith
  length-insert k v w ((j, u) ∷ d) e = elim (Bool-cases (str_eq j k)) [
    | inl hit ↦ rw hit refl
    | inr miss ↦ let e' = rw miss at e in rw miss (ap suc (length-insert k v w d e'))
  ]

  pub lookup-insert_self : (k : String) (v : R) (d : Dict R) → lookup k (insert k v d) ≡ some v
  lookup-insert_self k v d = lookup-insert k k v d ∙ rw ((eq_iff k k).1 refl) refl
