-- ===== src/DiskDict/Flush.antt =====
-- What the state of a dictionary on disk stands for, and that a flush brings its rows up to date.
use looplet.Prelude.{
  Bool-cases, Option, String, ap, false, inl, inr, none, refl, some, subst, sym, true, ◌∙◌, ◌≡◌,
}
use looplet.Prelude.Dict.{Dict, insert, lookup}
use looplet.DiskList.{Codec}
use looplet.DiskList.Settled.{IsLossless}
use looplet.DiskDict.{DiskDict, flush_cached, flush_dict, is_stored, update_row, write_value}
use looplet.DiskDict.Uses.{Keyed, Keyed}
use looplet.DiskDict.Rows.{insert-insert, insert_same, lookup-insert_self, view, view-update_row}

module _ {R P : Type 0} (codec : Codec R P) where
  abbrev pub shown : DiskDict R P → Dict R
  shown s = view codec.decode s.records

  -- the row of the live value holds what was read or written last, and the live value replaces it
  abbrev pub Live : Option (String × R) → DiskDict R P → Keyed R → Type 0
  Live none s l = (l.focus ≡ none) × (shown s ≡ l.items)
  Live (some (k, value)) s l =
      (l.focus ≡ some k)
      × (insert k value (shown s) ≡ l.items)
      × ((payload : P) × (s.cache_payload ≡ some payload)
          × (lookup k (shown s) ≡ some (codec.decode payload)))

  abbrev pub Refines : DiskDict R P → Keyed R → Type 0
  Refines s l = Live s.cache s l

  -- the rows are up to date
  abbrev pub Settled : DiskDict R P → Keyed R → Type 0
  Settled s l = Refines s l × (shown s ≡ l.items)

  module _ (lossless : IsLossless codec) where
    write_value-Settled :
        (k : String) (value : R) (s : DiskDict R P) (l : Keyed R)
        → s.cache ≡ some (k, value)
        → Live (some (k, value)) s l
        → Settled (write_value codec k (codec.encode value) s) l
    unfolding write_value
    write_value-Settled k value s l live (focus, items, (payload, held, row)) =
        elim (Bool-cases (codec.same_payload (codec.encode value) payload)) [
          | inl same ↦
              let hit : is_stored codec (codec.encode value) s.cache_payload ≡ true =
                rw held same in
              let back : codec.decode payload ≡ value =
                ap codec.decode (sym (lossless.same_sound _ _ same))
                ∙ lossless.decode-encode value in
              let unchanged : shown s ≡ l.items =
                sym (insert_same k value (shown s) (row ∙ ap some back)) ∙ items in
              rw (write_value, hit)
                (subst (λ c. Live c s l) (sym live) (focus, items, (payload, held, row)), unchanged)
          | inr other ↦
              let miss : is_stored codec (codec.encode value) s.cache_payload ≡ false =
                rw held other in
              let same = lossless.decode-encode value in
              let written : view codec.decode (update_row k (codec.encode value) s.records)
                  ≡ insert k value (shown s) =
                view-update_row codec.decode k (codec.encode value) (codec.decode payload) s.records
                  row
                ∙ ap (λ v. insert k v (shown s)) same in
              let s' = record s {
                records = update_row k (codec.encode value) s.records;
                cache_payload = some (codec.encode value);
              } in
              rw (write_value, miss)
                (
                  subst (λ c. Live c s' l) (sym live)
                      (
                        focus,
                        ap (insert k value) written ∙ insert-insert k value value (shown s) ∙ items,
                        (
                          codec.encode value,
                          refl,
                          ap (lookup k) written
                              ∙ lookup-insert_self k value (shown s)
                              ∙ ap some (sym same),
                        ),
                      ),
                  written ∙ items,
                )
        ]

    flush_cached-Settled :
        (cache : Option (String × R)) (s : DiskDict R P) (l : Keyed R)
        → s.cache ≡ cache
        → Live cache s l
        → Settled (flush_cached codec cache s) l
    flush_cached-Settled none s l empty (focus, items) =
        (subst (λ c. Live c s l) (sym empty) (focus, items), items)
    flush_cached-Settled (some (k, value)) s l live held = write_value-Settled k value s l live held

    -- A flush settles the dictionary.
    pub flush-Settled :
        (s : DiskDict R P) (l : Keyed R) → Refines s l → Settled (flush_dict codec s) l
    unfolding flush_dict
    flush-Settled s l ref = flush_cached-Settled s.cache s l refl ref
