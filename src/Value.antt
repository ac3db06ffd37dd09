-- ===== src/Value.antt =====
-- The Python values that tools, hooks and the model exchange: `None`, booleans, integers, texts,
-- lists, tuples and dictionaries with text keys. Floats and host objects are not among them.
pub mod Same
pub mod Observe
pub mod Reflexive
mod Tests
use looplet.Prelude.{
  ℕ, zero, suc, ◌+◌, String, Bool, true, false, Option, none, some, str_eq, if◌then◌else◌,
}

-- `negsuc n` is -(n + 1)
pub data ℤ : Type 0 where
  pos : ℕ → ℤ
  negsuc : ℕ → ℤ

mutual
  pub data Value : Type 0 where
    null : Value
    bool : Bool → Value
    int : ℤ → Value
    text : String → Value
    list : Items → Value
    tuple : Items → Value
    dict : Fields → Value

  pub data Items : Type 0 where
    nil : Items
    cons : Value → Items → Items

  pub data Fields : Type 0 where
    end : Fields
    field : String → Value → Fields → Fields

-- `d.get(k)`
abbrev pub get : String → Fields → Option Value
get k end = none
get k (field j v fs) = if str_eq j k then some v else get k fs

-- `len(items)`
abbrev pub count_items : Items → ℕ
count_items nil = 0
count_items (cons v vs) = suc (count_items vs)

abbrev pub nth : ℕ → Items → Option Value
nth i nil = none
nth zero (cons v vs) = some v
nth (suc i) (cons v vs) = nth i vs

-- `bool(v)`
abbrev pub truthy : Value → Bool
truthy null = false
truthy (bool b) = b
truthy (int (pos zero)) = false
truthy (int (pos (suc n))) = true
truthy (int (negsuc n)) = true
truthy (text s) = if str_eq s "" then false else true
truthy (list nil) = false
truthy (list (cons v vs)) = true
truthy (tuple nil) = false
truthy (tuple (cons v vs)) = true
truthy (dict end) = false
truthy (dict (field k v fs)) = true
