-- ===== src/Value/Reflexive.antt =====
-- The comparison of a value with itself.
use looplet.Prelude.{Bool, String, arith, eq_iff, eq_refl, none, refl, some, true, ◌≡◌}
use looplet.Value.{
  Fields, Items, Value, bool, cons, dict, end, field, get, int, list, nil, null, text, tuple, ℤ,
}
use looplet.Value.Same.{keys_in, same_bool, same_fields, same_int, same_items, same_value}

unfoldable mutual
  pub IsKeyed : Value → Type 0
  IsKeyed (list vs) = IsKeyedItems vs
  IsKeyed (tuple vs) = IsKeyedItems vs
  IsKeyed (dict fs) = IsKeyedFields fs
  IsKeyed _ = Unit

  pub IsKeyedItems : Items → Type 0
  IsKeyedItems nil = Unit
  IsKeyedItems (cons v vs) = IsKeyed v × IsKeyedItems vs

  pub IsKeyedFields : Fields → Type 0
  IsKeyedFields end = Unit
  IsKeyedFields (field k v fs) = (get k fs ≡ none) × IsKeyed v × IsKeyedFields fs

-- every entry of the first is the entry of the second at its key
abbrev Within : Fields → Fields → Type 0
Within fs gs = (k : String) (v : Value) → get k fs ≡ some v → get k gs ≡ some v

get_self : (k : String) (v : Value) (fs : Fields) → get k (field k v fs) ≡ some v
get_self k v fs = rw eq_refl

get_later :
    (j k : String) (v w : Value) (fs : Fields)
    → get j fs ≡ none
    → get k fs ≡ some w
    → get k (field j v fs) ≡ some w
get_later j k v w fs absent e = ground (arith, eq_iff j k)

Within-tail :
    (j : String) (v : Value) (fs gs : Fields)
    → get j fs ≡ none
    → Within (field j v fs) gs
    → Within fs gs
Within-tail j v fs gs absent inside = λ k w e. inside k w (get_later j k v w fs absent e)

same_int_refl : (a : ℤ) → same_int a a ≡ true
same_int_refl a = ground arith

same_bool_refl : (a : Bool) → same_bool a a ≡ true
same_bool_refl a = ground arith

mutual
  unfolding same_value IsKeyed

  same_value_self : (v : Value) → IsKeyed v → same_value v v ≡ true
  same_value_self null h = refl
  same_value_self (bool b) h = same_bool_refl b
  same_value_self (int a) h = same_int_refl a
  same_value_self (text s) h = eq_refl s
  same_value_self (list vs) h = same_items_self vs h
  same_value_self (tuple vs) h = same_items_self vs h
  same_value_self (dict fs) h =
      rw (keys_in_self fs fs h (λ k v e. e), same_fields_self fs fs h (λ k v e. e))

  same_items_self : (vs : Items) → IsKeyedItems vs → same_items vs vs ≡ true
  same_items_self nil h = refl
  same_items_self (cons v vs) h = rw (same_value_self v h.0, same_items_self vs h.1)

  same_fields_self : (fs gs : Fields) → IsKeyedFields fs → Within fs gs → same_fields fs gs ≡ true
  same_fields_self end gs h inside = refl
  same_fields_self (field j v fs) gs h inside = rw (
    inside j v (get_self j v fs),
    same_fields,
    same_value_self v h.1,
    same_fields_self fs gs h.2 (Within-tail j v fs gs h.0 inside),
  )

  keys_in_self : (fs gs : Fields) → IsKeyedFields fs → Within fs gs → keys_in fs gs ≡ true
  keys_in_self end gs h inside = refl
  keys_in_self (field j v fs) gs h inside =
      rw (inside j v (get_self j v fs), keys_in_self fs gs h.2 (Within-tail j v fs gs h.0 inside))

-- A value in which no dictionary lists a key twice compares equal to itself.
pub same_value_refl : (v : Value) → IsKeyed v → same_value v v ≡ true
same_value_refl v h = same_value_self v h
