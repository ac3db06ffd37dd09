-- ===== src/DiskList/Tests.antt =====
-- A list on disk of numbers, each stored with one added, at concrete uses.
use looplet.Prelude.{List, [], refl, some, ℕ, ◌+◌, ◌-◌, ◌==◌, ◌∷◌, ◌≡◌}
use looplet.Value.{negsuc, pos, pos, negsuc}
use looplet.DiskList.{
  Codec, close_gap, complement, delete_at, delete_item, delete_position, disk_list, edit_live,
  enter, flush, get_at, get_item, index_of, insert_at, insert_item, insert_position, insert_row,
  is_above, is_at, is_from, is_negative, make_room, move_where, negated, open_slot, read_row,
  select, set_at, set_item, snapshot, sync_to, sync_weight, total_weight, update_at, write_back,
}
use looplet.DiskList.Uses.{
  Use, assigns, copies, deletes, edits, finished, found, inserts, raised, reads, use_all_disk,
  weighed, weighs,
}

abbrev numbers : Codec ℕ ℕ
numbers = record {
  encode = λ n. n + 1;
  decode = λ n. n - 1;
  same_payload = ◌==◌;
  weight = some (λ n. n);
}

abbrev uses : List (Use ℕ)
uses =
    inserts (pos 9) 5
    ∷ inserts (pos 0) 7
    ∷ edits (λ n. n + 1)
    ∷ weighs
    ∷ reads (negsuc 0)
    ∷ deletes (pos 1)
    ∷ reads (pos 0)
    ∷ reads (pos 1)
    ∷ assigns (negsuc 0) 3
    ∷ copies
    ∷ weighs
    ∷ []

answers :
    (use_all_disk numbers uses (disk_list numbers)).0
    ≡ finished
      ∷ finished
      ∷ finished
      ∷ weighed (some 13)
      ∷ found 5
      ∷ finished
      ∷ found 8
      ∷ raised
      ∷ finished
      ∷ finished
      ∷ weighed (some 3)
      ∷ []
unfolding disk_list get_item get_at read_row set_item set_at delete_item delete_position insert_item
    insert_at total_weight snapshot edit_live flush sync_weight enter open_slot select update_at
    insert_row delete_at close_gap make_room move_where index_of insert_position is_at is_above
    is_from is_negative negated complement write_back sync_to
answers = refl
