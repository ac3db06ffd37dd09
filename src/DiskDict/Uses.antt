-- ===== src/DiskDict/Uses.antt =====
-- What a program does with a dictionary on disk, and with a plain dictionary of Python.
use looplet.Prelude.{
  Bool, List, Option, String, [], if◌then◌else◌, is_some, length, none, some, ℕ, ◌∷◌,
}
use looplet.Prelude.Dict.{Dict, insert, keys, lookup, remove}
use looplet.DiskList.{Codec}
use looplet.DiskDict.{
  DiskDict, clear_all, delete_value, edit_value, flush_dict, get_value, list_keys, set_value,
  transaction,
}

-- An edit changes the value that was read or written last.
pub data Use (R : Type 0) : Type 0 where
  reads deletes : String → Use R
  assigns : String → R → Use R
  edits : (R → R) → Use R
  counts lists clears : Use R

-- a use, or a transaction around uses, whose body then ends (`true`) or raises
pub data Stage (R : Type 0) : Type 0 where
  uses : Use R → Stage R
  transacts : List (Use R) → Bool → Stage R

pub data Answer (R : Type 0) : Type 0 where
  found : R → Answer R
  key_error : Answer R
  finished : Answer R
  counted : ℕ → Answer R
  listed : List String → Answer R

-- a dictionary, and the key whose value a program may still hold
pub record Keyed (R : Type 0) : Type 0 where
  pub items : Dict R
  pub focus : Option String

module _ {R : Type 0} where
  abbrev pub edited_value : (R → R) → String → Option R → Dict R → Dict R
  edited_value f k none d = d
  edited_value f k (some value) d = insert k (f value) d

  abbrev pub edited : (R → R) → Option String → Dict R → Dict R
  edited f none d = d
  edited f (some k) d = edited_value f k (lookup k d) d

  abbrev pub read_keyed : String → Option R → Keyed R → Answer R × Keyed R
  read_keyed k none l = (key_error, l)
  read_keyed k (some value) l = (found value, record l { focus = some k })

  abbrev pub present : Bool → Answer R
  present b = if b then finished else key_error

  abbrev pub use_keyed : Use R → Keyed R → Answer R × Keyed R
  use_keyed (reads k) l = read_keyed k (lookup k l.items) l
  use_keyed (deletes k) l =
      (present (is_some (lookup k l.items)), record { items = remove k l.items; focus = none })
  use_keyed (assigns k value) l =
      (finished, record { items = insert k value l.items; focus = some k })
  use_keyed (edits f) l = (finished, record l { items = edited f l.focus l.items })
  use_keyed counts l = (counted (length l.items), l)
  use_keyed lists l = (listed (keys l.items), l)
  use_keyed clears l = (finished, record { items = []; focus = none })

  abbrev pub use_all_keyed : List (Use R) → Keyed R → List (Answer R) × Keyed R
  use_all_keyed [] l = ([], l)
  use_all_keyed (u ∷ us) l =
      let (a, l₁) = use_keyed u l in let (as', l₂) = use_all_keyed us l₁ in (a ∷ as', l₂)

  -- a transaction keeps the items of its body, or those from before it
  abbrev pub step_keyed : Stage R → Keyed R → List (Answer R) × Keyed R
  step_keyed (uses u) l = let (a, l') = use_keyed u l in (a ∷ [], l')
  step_keyed (transacts us ends) l =
      let (as', l') = use_all_keyed us (record l { focus = none }) in
      (as', record { items = if ends then l'.items else l.items; focus = none })

  abbrev pub run_keyed : List (Stage R) → Keyed R → List (List (Answer R)) × Keyed R
  run_keyed [] l = ([], l)
  run_keyed (t ∷ ts) l =
      let (a, l₁) = step_keyed t l in let (as', l₂) = run_keyed ts l₁ in (a ∷ as', l₂)

module _ {R P : Type 0} (codec : Codec R P) where
  abbrev pub answer_read : Option R → Answer R
  answer_read none = key_error
  answer_read (some value) = found value

  abbrev pub use_dict : Use R → DiskDict R P → Answer R × DiskDict R P
  use_dict (reads k) s = let (o, s') = get_value codec k s in (answer_read o, s')
  use_dict (deletes k) s = let (b, s') = delete_value codec k s in (present b, s')
  use_dict (assigns k value) s = (finished, set_value codec k value s)
  use_dict (edits f) s = (finished, edit_value f s)
  use_dict counts s = (counted (length s.records), s)
  use_dict lists s = let (ks, s') = list_keys codec s in (listed ks, s')
  use_dict clears s = (finished, clear_all codec s)

  abbrev pub use_all_dict : List (Use R) → DiskDict R P → List (Answer R) × DiskDict R P
  use_all_dict [] s = ([], s)
  use_all_dict (u ∷ us) s =
      let (a, s₁) = use_dict u s in let (as', s₂) = use_all_dict us s₁ in (a ∷ as', s₂)

  -- the answers inside a transaction are those of its body on the state that it starts with
  abbrev pub step_dict : Stage R → DiskDict R P → List (Answer R) × DiskDict R P
  step_dict (uses u) s = let (a, s') = use_dict u s in (a ∷ [], s')
  step_dict (transacts us ends) s = (
    (use_all_dict us (record (flush_dict codec s) { cache = none })).0,
    transaction codec (λ t. (ends, (use_all_dict us t).1)) s,
  )

  abbrev pub run_dict : List (Stage R) → DiskDict R P → List (List (Answer R)) × DiskDict R P
  run_dict [] s = ([], s)
  run_dict (t ∷ ts) s =
      let (a, s₁) = step_dict t s in let (as', s₂) = run_dict ts s₁ in (a ∷ as', s₂)
