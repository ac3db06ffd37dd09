-- ===== src/DiskList/Uses.antt =====
-- What a program does with a list on disk, and with a plain list of Python.
use looplet.Prelude.{List, Option, [], length, map, none, some, ℕ, ◌∷◌}
use looplet.Prelude.Places.{erase_idx, get_elem?, insert_idx, set, sum}
use looplet.Value.{ℤ}
use looplet.DiskList.{
  Codec, DiskList, clear, delete_item, edit_live, get_item, index_of, insert_item, insert_position,
  set_item, snapshot, total_weight,
}
use looplet.DiskList.Settled.{Listing}

-- What a program does with the list. An edit changes the record that was read or written last.
pub data Use (R : Type 0) : Type 0 where
  reads : ℤ → Use R
  assigns : ℤ → R → Use R
  deletes : ℤ → Use R
  inserts : ℤ → R → Use R
  clears : Use R
  edits : (R → R) → Use R
  weighs : Use R
  copies : Use R

pub data Answer (R : Type 0) : Type 0 where
  found : R → Answer R
  raised : Answer R
  finished : Answer R
  weighed : Option ℕ → Answer R

module _ {R : Type 0} (weight : Option (R → ℕ)) where
  -- the same on a plain list of Python
  abbrev pub use_at : (ℕ → Answer R × Listing R) → Option ℕ → Listing R → Answer R × Listing R
  use_at k none l = (raised, l)
  use_at k (some p) l = k p

  abbrev pub read_listed : ℕ → Option R → Listing R → Answer R × Listing R
  read_listed p none l = (raised, l)
  read_listed p (some value) l = (found value, record l { focus = some p })

  abbrev pub edited_at : (R → R) → ℕ → Option R → List R → List R
  edited_at f p none xs = xs
  edited_at f p (some value) xs = set xs p (f value)

  abbrev pub edited : (R → R) → Option ℕ → List R → List R
  edited f none xs = xs
  edited f (some p) xs = edited_at f p (get_elem? xs p) xs

  abbrev pub total_of : Option (R → ℕ) → List R → Option ℕ
  total_of none xs = none
  total_of (some f) xs = some (sum (map f xs))

  abbrev pub use_listed : Use R → Listing R → Answer R × Listing R
  use_listed (reads i) l =
      use_at (λ p. read_listed p (get_elem? l.items p) l) (index_of (length l.items) i) l
  use_listed (assigns i value) l =
      use_at (λ p. (finished, record { items = set l.items p value; focus = some p }))
        (index_of (length l.items) i) l
  use_listed (deletes i) l =
      use_at (λ p. (finished, record { items = erase_idx l.items p; focus = none }))
        (index_of (length l.items) i) l
  use_listed (inserts i value) l =
      let p = insert_position (length l.items) i in
      (finished, record { items = insert_idx l.items p value; focus = some p })
  use_listed clears l = (finished, record { items = []; focus = none })
  use_listed (edits f) l = (finished, record l { items = edited f l.focus l.items })
  use_listed weighs l = (weighed (total_of weight l.items), l)
  use_listed copies l = (finished, l)

module _ {R P : Type 0} (codec : Codec R P) where
  abbrev pub answer_read : DiskList R P → Option (R × DiskList R P) → Answer R × DiskList R P
  answer_read s none = (raised, s)
  answer_read s (some (value, s')) = (found value, s')

  abbrev pub answer_change : DiskList R P → Option (DiskList R P) → Answer R × DiskList R P
  answer_change s none = (raised, s)
  answer_change s (some s') = (finished, s')

  abbrev pub use_disk : Use R → DiskList R P → Answer R × DiskList R P
  use_disk (reads i) s = answer_read s (get_item codec i s)
  use_disk (assigns i value) s = answer_change s (set_item codec i value s)
  use_disk (deletes i) s = answer_change s (delete_item codec i s)
  use_disk (inserts i value) s = (finished, insert_item codec i value s)
  use_disk clears s = (finished, clear codec s)
  use_disk (edits f) s = (finished, edit_live f s)
  use_disk weighs s = let (w, s') = total_weight codec s in (weighed w, s')
  use_disk copies s = (finished, (snapshot codec s).1)

  abbrev pub use_all_disk : List (Use R) → DiskList R P → List (Answer R) × DiskList R P
  use_all_disk [] s = ([], s)
  use_all_disk (u ∷ us) s =
      let (a, s₁) = use_disk u s in let (as', s₂) = use_all_disk us s₁ in (a ∷ as', s₂)

module _ {R : Type 0} (weight : Option (R → ℕ)) where
  abbrev pub use_all_listed : List (Use R) → Listing R → List (Answer R) × Listing R
  use_all_listed [] l = ([], l)
  use_all_listed (u ∷ us) l =
      let (a, l₁) = use_listed weight u l in let (as', l₂) = use_all_listed us l₁ in (a ∷ as', l₂)
