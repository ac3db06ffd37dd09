-- ===== src/DiskDict/Refinement.antt =====
-- A dictionary on disk behaves as a plain dictionary.
use looplet.Prelude.{
  Bool, Bool-cases, List, Option, String, [], ap, arith, eq_iff, false, if◌then◌else◌, inl, inr,
  is_some, length, none, refl, some, str_eq, subst, sym, true, ◌+◌, ◌∙◌, ◌∷◌, ◌≡◌,
}
use looplet.Prelude.Dict.{Dict, insert, keys, lookup, remove}
use looplet.DiskList.{Codec}
use looplet.DiskList.Settled.{IsLossless}
use looplet.DiskDict.{
  DiskDict, Entry, cached_value, clear_all, delete_value, edit_entry, edit_value, end_transaction,
  find_row, flush_dict, get_cached, get_value, last_rowid, list_keys, load_value, put_row,
  set_value, transaction,
}
use looplet.DiskDict.Uses.{
  Keyed, Stage, Use, answer_read, assigns, clears, counted, counts, deletes, edited, edits, listed,
  lists, present, read_keyed, reads, run_dict, run_keyed, step_dict, step_keyed, transacts,
  use_all_dict, use_all_keyed, use_dict, use_keyed, uses,
}
use looplet.DiskDict.Rows.{
  find_row-none, find_row-some, insert-insert, insert_same, is_some-find_row, keys-view,
  length-insert, length-view, lookup-insert_self, view, view-delete_row, view-put_row,
}
use looplet.DiskDict.Flush.{Live, Refines, Settled, flush-Settled, shown}

module _ {R P : Type 0} (codec : Codec R P) (lossless : IsLossless codec) where
  abbrev pub Agrees : {A : Type 0} → A × DiskDict R P → A × Keyed R → Type 0
  Agrees (a, s) (b, l) = (a ≡ b) × Refines codec s l

  -- a value that is live is the one of its key
  live-lookup :
      (k : String) (value : R) (cache : Option (String × R)) (s : DiskDict R P) (l : Keyed R)
      → cached_value codec k cache ≡ some value
      → Live codec cache s l
      → (l.focus ≡ some k) × (lookup k l.items ≡ some value)
  live-lookup k value none s l e live = ground arith
  live-lookup k value (some (j, v)) s l e (focus, items, row) = elim (Bool-cases (str_eq j k)) [
    | inl hit ↦
        let same : j ≡ k = (eq_iff j k).0 hit in
        let e' = rw hit at e in
        (
          focus ∙ ap some same,
          ap (lookup k) (sym items)
              ∙ ap (λ i. lookup k (insert i v (shown codec s))) same
              ∙ lookup-insert_self k v (shown codec s)
              ∙ e',
        )
    | inr miss ↦ let e' = rw miss at e in absurd (ground arith)
  ]

  load_value-Agrees :
      (k : String) (found_row : Option P) (s : DiskDict R P) (l : Keyed R)
      → Settled codec s l
      → find_row k s.records ≡ found_row
      → let (o, s') = load_value codec k found_row s in
        Agrees (answer_read codec o, s') (read_keyed k (lookup k l.items) l)
  load_value-Agrees k none s l (ref, items) e =
      let missing : lookup k l.items ≡ none =
        ap (lookup k) (sym items) ∙ find_row-none codec.decode k s.records e in
      rw missing (refl, ref)
  load_value-Agrees k (some payload) s l (ref, items) e =
      let row = find_row-some codec.decode k payload s.records e in
      let there : lookup k l.items ≡ some (codec.decode payload) =
        ap (lookup k) (sym items) ∙ row in
      rw there (
        refl,
        (
          refl,
          insert_same k (codec.decode payload) (shown codec s) row ∙ items,
          (payload, refl, row),
        ),
      )

  get_cached-Agrees :
      (k : String) (live : Option R) (s : DiskDict R P) (l : Keyed R)
      → Refines codec s l
      → cached_value codec k s.cache ≡ live
      → let (o, s') = get_cached codec k live s in
        Agrees (answer_read codec o, s') (read_keyed k (lookup k l.items) l)
  get_cached-Agrees k (some value) s l ref e =
      let (focus, there) = live-lookup k value s.cache s l e ref in
      rw there (refl, subst (λ o. Refines codec s (record l { focus = o })) focus ref)
  get_cached-Agrees k none s l ref e =
      load_value-Agrees k _ (flush_dict codec s) l (flush-Settled codec lossless s l ref) refl

  edit-Live :
      (f : R → R) (cache other : Option (String × R)) (s : DiskDict R P) (l : Keyed R)
      → Live codec cache s l
      → Live codec
          (edit_entry f cache)
          (record s { cache = other })
          (record l { items = edited f l.focus l.items })
  edit-Live f none other s l (focus, items) = (focus, items ∙ rw focus refl)
  edit-Live f (some (k, v)) other s l (focus, items, row) =
      let there : lookup k l.items ≡ some v =
        ap (lookup k) (sym items) ∙ lookup-insert_self k v (shown codec s) in
      let same : edited f l.focus l.items ≡ insert k (f v) l.items = rw (focus, there) refl in
      (
        focus,
        sym (insert-insert k (f v) v (shown codec s)) ∙ ap (insert k (f v)) items ∙ sym same,
        row,
      )

  live-length :
      (cache : Option (String × R)) (s : DiskDict R P) (l : Keyed R)
      → Live codec cache s l
      → length s.records ≡ length l.items
  live-length none s l (focus, items) = length-view codec.decode s.records ∙ ap length items
  live-length (some (k, v)) s l (focus, items, (payload, held, row)) =
      length-view codec.decode s.records
      ∙ sym (length-insert k v (codec.decode payload) (shown codec s) row)
      ∙ ap length items

  -- one use of the dictionary
  use_dict-Agrees :
      (u : Use R) (s : DiskDict R P) (l : Keyed R)
      → Refines codec s l
      → Agrees (use_dict codec u s) (use_keyed u l)
  unfolding get_value set_value delete_value list_keys clear_all edit_value
  use_dict-Agrees (reads k) s l ref = get_cached-Agrees k _ s l ref refl
  use_dict-Agrees (deletes k) s l ref =
      let (ref₁, items) = flush-Settled codec lossless s l ref in
      let rows = (flush_dict codec s).records in
      (
        ap present (is_some-find_row codec.decode k rows ∙ ap (λ d. is_some (lookup k d)) items),
        (refl, view-delete_row codec.decode k rows ∙ ap (remove k) items),
      )
  use_dict-Agrees (assigns k value) s l ref =
      let (ref₁, items) = flush-Settled codec lossless s l ref in
      let rows = (flush_dict codec s).records in
      let written : view codec.decode (put_row k (codec.encode value) (last_rowid rows + 1) rows)
          ≡ insert k value (view codec.decode rows) =
        view-put_row codec.decode k (codec.encode value) (last_rowid rows + 1) rows
        ∙ ap (λ v. insert k v (view codec.decode rows)) (lossless.decode-encode value) in
      (
        refl,
        (
          refl,
          ap (insert k value) written
              ∙ insert-insert k value value (view codec.decode rows)
              ∙ ap (insert k value) items,
          (
            codec.encode value,
            refl,
            ap (lookup k) written
                ∙ lookup-insert_self k value (view codec.decode rows)
                ∙ ap some (sym (lossless.decode-encode value)),
          ),
        ),
      )
  use_dict-Agrees (edits f) s l ref = (refl, edit-Live f s.cache _ s l ref)
  use_dict-Agrees counts s l ref = (ap counted (live-length s.cache s l ref), ref)
  use_dict-Agrees lists s l ref =
      let (ref₁, items) = flush-Settled codec lossless s l ref in
      (ap listed (keys-view codec.decode (flush_dict codec s).records ∙ ap keys items), ref₁)
  use_dict-Agrees clears s l ref = (refl, (refl, refl))

  pub use_all-Agree :
      (us : List (Use R)) (s : DiskDict R P) (l : Keyed R)
      → Refines codec s l
      → Agrees (use_all_dict codec us s) (use_all_keyed us l)
  use_all-Agree [] s l ref = (refl, ref)
  use_all-Agree (u ∷ us) s l ref =
      let (same, ref₁) = use_dict-Agrees u s l ref in
      let (rest, ref₂) = use_all-Agree us _ _ ref₁ in (cc, ref₂)

  end_transaction-Refines :
      (saved : List (Entry P)) (ends : Bool) (s : DiskDict R P) (l : Keyed R) (before : Dict R)
      → view codec.decode saved ≡ before
      → Refines codec s l
      → Refines codec
          (end_transaction codec saved ends s)
          (record { items = if ends then l.items else before; focus = none })
  end_transaction-Refines saved true s l before old ref =
      (refl, (flush-Settled codec lossless s l ref).1)
  end_transaction-Refines saved false s l before old ref = (refl, old)

  step-Agrees :
      (t : Stage R) (s : DiskDict R P) (l : Keyed R)
      → Refines codec s l
      → Agrees (step_dict codec t s) (step_keyed t l)
  unfolding transaction
  step-Agrees (uses u) s l ref =
      let (same, ref₁) = use_dict-Agrees u s l ref in (ap (λ a. a ∷ []) same, ref₁)
  step-Agrees (transacts us ends) s l ref =
      let (ref₁, items) = flush-Settled codec lossless s l ref in
      let s₁ = record (flush_dict codec s) { cache = none } in
      let (same, ref₂) = use_all-Agree us s₁ (record l { focus = none }) (refl, items) in
      (
        same,
        end_transaction-Refines s₁.records ends (use_all_dict codec us s₁).1
            (use_all_keyed us (record l { focus = none })).1 l.items items ref₂,
      )

  pub run-Agrees :
      (ts : List (Stage R)) (s : DiskDict R P) (l : Keyed R)
      → Refines codec s l
      → Agrees (run_dict codec ts s) (run_keyed ts l)
  run-Agrees [] s l ref = (refl, ref)
  run-Agrees (t ∷ ts) s l ref =
      let (same, ref₁) = step-Agrees t s l ref in
      let (rest, ref₂) = run-Agrees ts _ _ ref₁ in (cc, ref₂)
