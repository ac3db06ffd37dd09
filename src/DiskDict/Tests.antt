-- ===== src/DiskDict/Tests.antt =====
-- A dictionary on disk of numbers, at concrete steps.
use looplet.Prelude.{
  ==_iff, List, [], arith, false, map, none, refl, true, ℕ, ◌+◌, ◌-◌, ◌==◌, ◌∷◌, ◌≡◌,
}
use looplet.DiskList.{Codec}
use looplet.DiskList.Settled.{IsLossless}
use looplet.DiskDict.{
  delete_row, delete_value, disk_dict, edit_value, find_row, flush_dict, get_value, items_after,
  last_rowid, list_keys, put_row, set_value, transaction, update_row, write_value,
}
use looplet.DiskDict.Uses.{
  Stage, Use, assigns, counted, counts, deletes, edits, finished, found, key_error, listed, lists,
  reads, run_dict, transacts, use_all_dict, uses,
}
use looplet.DiskDict.Appended.{items_after-drop, unnumbered}

abbrev plain : Codec ℕ ℕ
plain = record { encode = λ n. n + 1; decode = λ n. n - 1; same_payload = ◌==◌; weight = none }

plain-IsLossless : IsLossless plain
plain-IsLossless = record {
  decode-encode = λ n. omega arith;
  same_sound = λ a b e. (==_iff a b).0 e;
}

-- an edit in place is seen after the cache was given to another key; a transaction that raises is undone
abbrev steps : List (Stage ℕ)
steps =
    uses (assigns "a" 1)
    ∷ uses (edits (λ n. n + 1))
    ∷ uses (assigns "b" 5)
    ∷ uses (reads "a")
    ∷ transacts (deletes "a" ∷ assigns "c" 7 ∷ counts ∷ []) false
    ∷ uses (deletes "c")
    ∷ transacts (assigns "c" 8 ∷ []) true
    ∷ uses lists
    ∷ []

answers :
    (run_dict plain steps (disk_dict plain)).0
    ≡ (finished ∷ [])
      ∷ (finished ∷ [])
      ∷ (finished ∷ [])
      ∷ (found 2 ∷ [])
      ∷ (finished ∷ finished ∷ counted 2 ∷ [])
      ∷ (key_error ∷ [])
      ∷ (finished ∷ [])
      ∷ (listed ("a" ∷ "b" ∷ "c" ∷ []) ∷ [])
      ∷ []
unfolding disk_dict get_value set_value delete_value list_keys edit_value transaction flush_dict
    write_value find_row update_row put_row delete_row
answers = refl

-- The number of a row that was deleted last is given again, so the new entry is not behind it.
number_reused :
    let s =
      (run_dict plain (uses (assigns "a" 1) ∷ uses (assigns "b" 2) ∷ []) (disk_dict plain)).1 in
    let s' = (run_dict plain (uses (deletes "b") ∷ uses (assigns "c" 3) ∷ []) s).1 in
    (items_after plain (last_rowid s.records) s').0 ≡ []
unfolding disk_dict set_value delete_value flush_dict write_value find_row update_row put_row
    delete_row items_after
number_reused = refl

abbrev later : List (Use ℕ)
later = reads "a" ∷ assigns "d" 4 ∷ edits (λ n. n + 1) ∷ []

items_after-drop_example :
    let s = flush_dict plain (run_dict plain steps (disk_dict plain)).1 in
    map unnumbered (items_after plain (last_rowid s.records) (use_all_dict plain later s).1).0
    ≡ ("d", 5) ∷ []
items_after-drop_example =
    items_after-drop plain plain-IsLossless steps later (refl, (refl, (refl, tt)))
