-- ===== src/Value/Same.antt =====
-- `_same_action_value` of src/looplet/permissions.py: the comparison that decides whether an
-- approved action is still the action about to run.
use looplet.Prelude.{
  ℕ, String, Bool, true, false, ◌&&◌, Option, none, some, List, [], ◌∷◌, str_eq, ◌==◌, is_some,
}
use looplet.Value.{
  ℤ, pos, negsuc, Value, null, bool, int, text, list, tuple, dict, Items, nil, cons, Fields, end,
  field, get, nth, count_items,
}

abbrev pub same_bool : Bool → Bool → Bool
same_bool true b = b
same_bool false true = false
same_bool false false = true

abbrev pub same_int : ℤ → ℤ → Bool
same_int (pos a) (pos b) = a == b
same_int (negsuc a) (negsuc b) = a == b
same_int _ _ = false

-- every key of the first is a key of the second
abbrev pub keys_in : Fields → Fields → Bool
keys_in end gs = true
keys_in (field k v fs) gs = is_some (get k gs) && keys_in fs gs

unfoldable mutual
  pub same_value : Value → Value → Bool
  same_value null null = true
  same_value (bool a) (bool b) = same_bool a b
  same_value (int a) (int b) = same_int a b
  same_value (text a) (text b) = str_eq a b
  same_value (list vs) (list ws) = same_items vs ws
  same_value (tuple vs) (tuple ws) = same_items vs ws
  same_value (dict fs) (dict gs) = (keys_in fs gs && keys_in gs fs) && same_fields fs gs
  same_value _ _ = false

  pub same_items : Items → Items → Bool
  same_items nil nil = true
  same_items (cons v vs) (cons w ws) = same_value v w && same_items vs ws
  same_items _ _ = false

  pub same_fields : Fields → Fields → Bool
  same_fields end gs = true
  same_fields (field k v fs) gs = elim (get k gs) [
    | none ↦ false
    | some w ↦ same_value v w && same_fields fs gs
  ]

-- A way into a value: by key, or by position.
pub data Access : Type 0 where
  key : String → Access
  at : ℕ → Access

-- What is seen of a value from outside, its parts left out.
pub data Head : Type 0 where
  atom : Value → Head
  list_of : ℕ → Head
  tuple_of : ℕ → Head
  a_dict : Head

abbrev pub head : Value → Head
head (list vs) = list_of (count_items vs)
head (tuple vs) = tuple_of (count_items vs)
head (dict fs) = a_dict
head v = atom v

abbrev pub child : Access → Value → Option Value
child (key k) (dict fs) = get k fs
child (at i) (list vs) = nth i vs
child (at i) (tuple vs) = nth i vs
child _ _ = none

abbrev pub observe : List Access → Value → Option Head
observe [] v = some (head v)
observe (a ∷ p) v = elim (child a v) [ none ↦ none | some u ↦ observe p u ]
