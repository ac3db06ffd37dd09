-- ===== src/Prelude/Places.antt =====
-- Reading and changing a list at a place.
use Prim.Native.Nat.{ℕ, zero, suc, ◌+◌, ◌≤◌, ◌<◌}
use mathlib.Core.Path.{◌≡◌, refl, ap}
use mathlib.Core.Option.{Option, none, some}
use mathlib.Core.List.{List, [], ◌∷◌, map}
use native.Mathlib.Omega.{arith}
use looplet.Prelude.Lists.{length}

module _ {ℓ} {A : Type ℓ} where
  abbrev pub get_elem? : List A → ℕ → Option A
  get_elem? [] i = none
  get_elem? (x ∷ xs) zero = some x
  get_elem? (x ∷ xs) (suc i) = get_elem? xs i

  abbrev pub set : List A → ℕ → A → List A
  set [] i v = []
  set (x ∷ xs) zero v = v ∷ xs
  set (x ∷ xs) (suc i) v = x ∷ set xs i v

  abbrev pub erase_idx : List A → ℕ → List A
  erase_idx [] i = []
  erase_idx (x ∷ xs) zero = xs
  erase_idx (x ∷ xs) (suc i) = x ∷ erase_idx xs i

  abbrev pub insert_idx : List A → ℕ → A → List A
  insert_idx xs zero v = v ∷ xs
  insert_idx [] (suc i) v = v ∷ []
  insert_idx (x ∷ xs) (suc i) v = x ∷ insert_idx xs i v

  pub length-set : (xs : List A) (i : ℕ) (v : A) → length (set xs i v) ≡ length xs
  length-set [] i v = refl
  length-set (x ∷ xs) zero v = refl
  length-set (x ∷ xs) (suc i) v = omega (arith, length-set xs i v)

  pub length-erase_idx :
      (xs : List A) (i : ℕ) → i < length xs → length (erase_idx xs i) + 1 ≡ length xs
  length-erase_idx [] i h = absurd (omega arith)
  length-erase_idx (x ∷ xs) zero h = omega arith
  length-erase_idx (x ∷ xs) (suc i) h = omega (arith, length-erase_idx xs i)

  pub length-insert_idx : (xs : List A) (i : ℕ) (v : A) → length (insert_idx xs i v) ≡ length xs + 1
  length-insert_idx xs zero v = omega arith
  length-insert_idx [] (suc i) v = omega arith
  length-insert_idx (x ∷ xs) (suc i) v = omega (arith, length-insert_idx xs i v)

  -- every place within a list has an element
  pub get_elem?_within : (xs : List A) (i : ℕ) → i < length xs → (x : A) × (get_elem? xs i ≡ some x)
  get_elem?_within [] i h = absurd (omega arith)
  get_elem?_within (x ∷ xs) zero h = (x, refl)
  get_elem?_within (x ∷ xs) (suc i) h = get_elem?_within xs i (omega arith)

  pub get_elem?-set_self :
      (xs : List A) (i : ℕ) (v : A) → i < length xs → get_elem? (set xs i v) i ≡ some v
  get_elem?-set_self [] i v h = absurd (omega arith)
  get_elem?-set_self (x ∷ xs) zero v h = refl
  get_elem?-set_self (x ∷ xs) (suc i) v h = get_elem?-set_self xs i v (omega arith)

  pub get_elem?-set_ne :
      (xs : List A) (i j : ℕ) (v : A) → ((i ≡ j) → ⊥) → get_elem? (set xs i v) j ≡ get_elem? xs j
  get_elem?-set_ne [] i j v h = refl
  get_elem?-set_ne (x ∷ xs) zero zero v h = absurd (h refl)
  get_elem?-set_ne (x ∷ xs) zero (suc j) v h = refl
  get_elem?-set_ne (x ∷ xs) (suc i) zero v h = refl
  get_elem?-set_ne (x ∷ xs) (suc i) (suc j) v h = get_elem?-set_ne xs i j v (λ e. h (omega arith))

  -- a write of what is there changes nothing, and the last of two writes counts
  pub set_same : (xs : List A) (i : ℕ) (v : A) → get_elem? xs i ≡ some v → set xs i v ≡ xs
  set_same [] i v e = refl
  set_same (x ∷ xs) zero v e = cc
  set_same (x ∷ xs) (suc i) v e = cc (set_same xs i v e)

  pub set-set : (xs : List A) (i : ℕ) (u v : A) → set (set xs i u) i v ≡ set xs i v
  set-set [] i u v = refl
  set-set (x ∷ xs) zero u v = refl
  set-set (x ∷ xs) (suc i) u v = cc (set-set xs i u v)

-- the changes commute with a map
module _ {ℓ κ} {A : Type ℓ} {B : Type κ} (f : A → B) where
  pub get_elem?-map :
      (xs : List A) (i : ℕ) (x : A) → get_elem? xs i ≡ some x → get_elem? (map f xs) i ≡ some (f x)
  get_elem?-map [] i x e = cc
  get_elem?-map (y ∷ xs) zero x e = cc
  get_elem?-map (y ∷ xs) (suc i) x e = get_elem?-map xs i x e

  pub set-map : (xs : List A) (i : ℕ) (v : A) → set (map f xs) i (f v) ≡ map f (set xs i v)
  set-map [] i v = refl
  set-map (x ∷ xs) zero v = refl
  set-map (x ∷ xs) (suc i) v = ap (λ ys. f x ∷ ys) (set-map xs i v)

  pub erase_idx-map : (xs : List A) (i : ℕ) → erase_idx (map f xs) i ≡ map f (erase_idx xs i)
  erase_idx-map [] i = refl
  erase_idx-map (x ∷ xs) zero = refl
  erase_idx-map (x ∷ xs) (suc i) = ap (λ ys. f x ∷ ys) (erase_idx-map xs i)

  pub insert_idx-map :
      (xs : List A) (i : ℕ) (v : A) → insert_idx (map f xs) i (f v) ≡ map f (insert_idx xs i v)
  insert_idx-map xs zero v = refl
  insert_idx-map [] (suc i) v = refl
  insert_idx-map (x ∷ xs) (suc i) v = ap (λ ys. f x ∷ ys) (insert_idx-map xs i v)

-- the sum of a list of numbers, under a change at a place
abbrev pub sum : List ℕ → ℕ
sum [] = 0
sum (n ∷ ns) = n + sum ns

pub sum-set :
    (ns : List ℕ) (i old n : ℕ)
    → get_elem? ns i ≡ some old
    → (sum (set ns i n) + old ≡ sum ns + n) × (old ≤ sum ns)
sum-set [] i old n e = cc
sum-set (m ∷ ns) zero old n e = ground arith
sum-set (m ∷ ns) (suc i) old n e = let ih = sum-set ns i old n e in (omega arith, omega arith)

pub sum-erase_idx :
    (ns : List ℕ) (i old : ℕ) → get_elem? ns i ≡ some old → sum (erase_idx ns i) + old ≡ sum ns
sum-erase_idx [] i old e = cc
sum-erase_idx (m ∷ ns) zero old e = ground arith
sum-erase_idx (m ∷ ns) (suc i) old e = omega (arith, sum-erase_idx ns i old e)

pub sum-insert_idx : (ns : List ℕ) (i n : ℕ) → sum (insert_idx ns i n) ≡ sum ns + n
sum-insert_idx ns zero n = omega arith
sum-insert_idx [] (suc i) n = omega arith
sum-insert_idx (m ∷ ns) (suc i) n = omega (arith, sum-insert_idx ns i n)
