-- ===== src/Value/Observe.antt =====
-- What a successful comparison of two values says about every part of them.
use mathlib.Core.Path.{subst}
use looplet.Prelude.{
  zero, str_eq, false, Bool-cases, Option-cases, inl, inr, ◌&&◌, and_parts, suc, ℕ, List, [], ◌∷◌,
  none, some, Option, Bool, String, ap, arith, eq_iff, false, none, refl, true, ◌≡◌,
}
use looplet.Value.{
  nth, Items, nil, cons, Fields, Items, Value, bool, cons, count_items, dict, end, field, get, int,
  list, nil, null, text, tuple, ℤ,
}
use looplet.Value.Same.{
  Head, same_items, keys_in, observe, same_fields, Access, key, at, same_value, head, keys_in,
  list_of, same_bool, same_int, same_items, same_value, tuple_of,
}

-- what is seen of a part that may be missing
abbrev observe_part : List Access → Option Value → Option Head
observe_part p none = none
observe_part p (some u) = observe p u

same_bool→eq : (a b : Bool) → same_bool a b ≡ true → a ≡ b
same_bool→eq true b h = ground arith
same_bool→eq false b h = ground arith

same_int→eq : (a b : ℤ) → same_int a b ≡ true → a ≡ b
same_int→eq a b h = ground arith

same_items→count : (vs ws : Items) → same_items vs ws ≡ true → count_items vs ≡ count_items ws
unfolding same_items
same_items→count nil nil h = refl
same_items→count (cons v vs) nil h = cc
same_items→count nil (cons w ws) h = cc
same_items→count (cons v vs) (cons w ws) h =
    ap (λ (n : ℕ). suc n) (same_items→count vs ws (and_parts (same_value v w) _ h).1)

-- Values that compare equal look alike at the top.
same_value→head : (v w : Value) → same_value v w ≡ true → head v ≡ head w
unfolding same_value
same_value→head (list vs) (list ws) h = ap list_of (same_items→count vs ws h)
same_value→head (tuple vs) (tuple ws) h = ap tuple_of (same_items→count vs ws h)
same_value→head (bool a) (bool b) h = ground (arith, same_bool→eq a b h)
same_value→head (int a) (int b) h = ground (arith, same_int→eq a b h)
same_value→head (text a) (text b) h = ground (arith, eq_iff a b)
same_value→head null null h = refl
same_value→head (dict fs) (dict gs) h = refl
same_value→head _ _ h = cc

keys_in→get :
    (fs gs : Fields) (k : String) → keys_in fs gs ≡ true → get k gs ≡ none → get k fs ≡ none
keys_in→get end gs k h e = refl
keys_in→get (field j v fs) gs k h e = ground (arith, eq_iff j k, keys_in→get fs gs k)

field_parts :
    (j : String) (v : Value) (fs gs : Fields)
    → same_fields (field j v fs) gs ≡ true
    → (w : Value) × (get j gs ≡ some w) × (same_value v w ≡ true) × (same_fields fs gs ≡ true)
unfolding same_fields
field_parts j v fs gs h = elim (Option-cases (get j gs)) [
  | inl e ↦ cc (let h' : false ≡ true = rw (e, same_fields) at h in h')
  | inr (w, e) ↦
      let parts = and_parts (same_value v w) (same_fields fs gs) (rw (e, same_fields) at h) in
      (w, e, parts.0, parts.1)
]

mutual
  unfolding same_value

  observe_value :
      (v w : Value) → same_value v w ≡ true → (p : List Access) → observe p v ≡ observe p w
  observe_value v w h [] = ap some (same_value→head v w h)
  observe_value (list vs) (list ws) h (at i ∷ p) = observe_items vs ws h i p
  observe_value (tuple vs) (tuple ws) h (at i ∷ p) = observe_items vs ws h i p
  observe_value (dict fs) (dict gs) h (key k ∷ p) =
      let (keys, fields) = and_parts (keys_in fs gs && keys_in gs fs) (same_fields fs gs) h in
      observe_fields fs gs k p (keys_in→get gs fs k (and_parts (keys_in fs gs) _ keys).1) fields
  observe_value _ _ h (key k ∷ p) = ground arith
  observe_value _ _ h (at i ∷ p) = ground arith

  observe_items :
      (vs ws : Items)
      → same_items vs ws ≡ true
      → (i : ℕ) (p : List Access) → observe_part p (nth i vs) ≡ observe_part p (nth i ws)
  observe_items nil nil h i p = refl
  observe_items nil (cons w ws) h i p = cc
  observe_items (cons v vs) nil h i p = cc
  observe_items (cons v vs) (cons w ws) h zero p =
      observe_value v w (and_parts (same_value v w) _ h).0 p
  observe_items (cons v vs) (cons w ws) h (suc i) p =
      observe_items vs ws (and_parts (same_value v w) _ h).1 i p

  observe_fields :
      (fs gs : Fields) (k : String) (p : List Access)
      → (get k fs ≡ none → get k gs ≡ none)
      → same_fields fs gs ≡ true
      → observe_part p (get k fs) ≡ observe_part p (get k gs)
  observe_fields end gs k p missing h = rw (missing refl)
  observe_fields (field j v fs) gs k p missing h =
      let (w, e, hv, hs) = field_parts j v fs gs h in
      elim (Bool-cases (str_eq j k)) [
        | inl s ↦
            let e' : get k gs ≡ some w = subst (λ x. get x gs ≡ some w) ((eq_iff j k).0 s) e in
            rw (s, e') (observe_value v w hv p)
        | inr s ↦ rw s (observe_fields fs gs k p (λ m. missing (rw s m)) hs)
      ]

-- An approved action whose comparison succeeds is the same action at every path: whatever keys and
-- positions are followed, both values show the same thing there, or both have nothing there.
pub observe-same :
    (v w : Value) → same_value v w ≡ true → (p : List Access) → observe p v ≡ observe p w
observe-same v w h p = observe_value v w h p
