-- ===== src/Prelude/Meter.antt =====
-- Limits that are counted apart: a state that answers requests, of which only some draw on one meter.
use Prim.Native.Nat.{ℕ, zero, suc, ◌+◌, min}
use mathlib.Core.Path.{◌≡◌, refl, ap, ◌∙◌}
use mathlib.Core.Logic.{◌⊎◌, inl, inr}
use mathlib.Core.Bool.{Bool, true, false, ◌&&◌}
use mathlib.Core.List.{List, [], ◌∷◌}
use native.Mathlib.Omega.{arith}
use looplet.Prelude.Tests.{if◌then◌else◌, Bool-cases}

-- `left` requests of the kind `mine` are still granted; other requests leave the meter alone.
pub record Meter (A S : Type 0) : Type 0 where
  pub ask : A → S → Bool × S
  pub mine : A → Bool
  pub left : S → ℕ
  pub elsewhere : (a : A) (s : S) → mine a ≡ false → left (ask a s).1 ≡ left s
  pub spent :
      (a : A) (s : S) → mine a ≡ true → left s ≡ 0 → ((ask a s).0 ≡ false) × (left (ask a s).1 ≡ 0)
  pub granted :
      (a : A) (s : S) (n : ℕ)
      → mine a ≡ true
      → left s ≡ suc n
      → ((ask a s).0 ≡ true) × (left (ask a s).1 ≡ n)

module _ {A S : Type 0} (m : Meter A S) where
  -- how many requests of the kind are granted, and how many there are
  abbrev pub grants : List A → S → ℕ
  grants [] s = 0
  grants (a ∷ as') s =
      let rest = grants as' (m.ask a s).1 in if m.mine a && (m.ask a s).0 then rest + 1 else rest

  abbrev pub requests : List A → ℕ
  requests [] = 0
  requests (a ∷ as') = let rest = requests as' in if m.mine a then rest + 1 else rest

  ℕ-cases : (n : ℕ) → (n ≡ 0) ⊎ ((k : ℕ) × (n ≡ suc k))
  ℕ-cases zero = inl refl
  ℕ-cases (suc k) = inr (k, refl)

  no_more : (g q l : ℕ) → l ≡ 0 → g ≡ min 0 q → g ≡ min l (q + 1)
  no_more g q l e h = omega arith

  one_more : (g q l n k : ℕ) → l ≡ suc n → k ≡ n → g ≡ min k q → g + 1 ≡ min l (q + 1)
  one_more g q l n k e h r = omega arith

  -- Exactly the first `left` requests of the kind are granted.
  pub grants-left : (as' : List A) (s : S) → grants as' s ≡ min (m.left s) (requests as')
  grants-left [] s = omega arith
  grants-left (a ∷ as') s = elim (Bool-cases (m.mine a)) [
    | inr n ↦
        rw n (grants-left as' (m.ask a s).1 ∙ ap (λ l. min l (requests as')) (m.elsewhere a s n))
    | inl n ↦ elim (ℕ-cases (m.left s)) [
      | inl e ↦
          let (refused, none_left) = m.spent a s n e in
          rw (n, refused)
            (no_more _ _ _ e
              (grants-left as' (m.ask a s).1 ∙ ap (λ l. min l (requests as')) none_left))
      | inr (k, e) ↦
          let (passed, fewer) = m.granted a s k n e in
          rw (n, passed) (one_more _ _ _ k _ e fewer (grants-left as' (m.ask a s).1))
    ]
  ]
