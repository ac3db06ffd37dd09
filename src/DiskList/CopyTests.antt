-- ===== src/DiskList/CopyTests.antt =====
-- A copy of a list on disk of numbers, kept over requests that change, go back and ask too far.
use looplet.Prelude.{==_iff, List, [], arith, none, refl, some, ℕ, ◌+◌, ◌==◌, ◌∷◌, ◌≡◌}
use looplet.Value.{negsuc, pos, pos, negsuc}
use looplet.DiskList.{
  Codec, close_gap, complement, delete_at, delete_item, delete_position, disk_list, edit_live,
  enter, flush, get_at, get_item, index_of, insert_at, insert_item, insert_position, insert_row,
  is_above, is_at, is_from, is_negative, move_where, negated, open_slot, read_row, select, sync_to,
  sync_weight, update_at, write_back,
}
use looplet.DiskList.Settled.{IsLossless}
use looplet.DiskList.Uses.{Use, assigns, deletes, edits, inserts, reads}
use looplet.DiskList.Since.{changes_since, is_change, is_newer, list_changes}
use looplet.DiskList.Copying.{follow, follow_round, follow_round-take, no_copy}

abbrev plain : Codec ℕ ℕ
plain = record { encode = λ n. n; decode = λ n. n; same_payload = ◌==◌; weight = none }

plain-IsLossless : IsLossless plain
plain-IsLossless = record { decode-encode = λ n. refl; same_sound = λ a b e. (==_iff a b).0 e }

abbrev three : List (Use ℕ)
three = inserts (pos 9) 5 ∷ inserts (pos 9) 6 ∷ inserts (pos 9) 7 ∷ []

-- three records of which two are asked for, and a change in place with a request beyond the end
abbrev rounds : List (List (Use ℕ) × ℕ)
rounds = (three, 2) ∷ (reads (pos 0) ∷ edits (λ n. n + 1) ∷ [], 9) ∷ []

-- The next request lists the record that was edited and the one that is new to the copy.
changes_listed :
    let (s, copy) = follow plain rounds (disk_list plain, no_copy) in
    (changes_since plain copy.cursor 3 s).0
    ≡ some (record { generation = 0; revision = 4; records = (pos 0, 6) ∷ (pos 2, 7) ∷ [] })
unfolding disk_list get_item get_at read_row insert_item insert_at edit_live flush sync_weight enter
    open_slot select update_at insert_row index_of insert_position is_at is_above is_from write_back
    sync_to changes_since list_changes is_change is_newer
changes_listed = refl

-- A deletion starts a new generation: everything is listed.
all_listed :
    let (s, copy) = follow plain rounds (disk_list plain, no_copy) in
    (follow_round plain (deletes (pos 1) ∷ [], 2) (s, copy)).1.items ≡ 6 ∷ 7 ∷ []
unfolding disk_list get_item get_at read_row insert_item insert_at edit_live flush sync_weight enter
    open_slot select update_at insert_row index_of insert_position is_at is_above is_from write_back
    sync_to changes_since list_changes is_change is_newer delete_item delete_position delete_at
    close_gap move_where is_negative negated complement
all_listed = refl

follow_round-take_example :
    (follow_round plain
      (assigns (negsuc 0) 8 ∷ [], 3)
      (follow plain rounds (disk_list plain, no_copy))).1.items
    ≡ 6 ∷ 6 ∷ 8 ∷ []
unfolding index_of insert_position
follow_round-take_example =
    follow_round-take plain plain-IsLossless rounds (assigns (negsuc 0) 8 ∷ []) 3 (omega arith)
