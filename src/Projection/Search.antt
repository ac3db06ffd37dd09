-- ===== src/Projection/Search.antt =====
-- What the bisection finds.
use looplet.Prelude.{
  Bool, Bool-cases, arith, false, inl, inr, ltb, ltb→lt, refl, suc, sym, true, zero, ℕ, ◌+◌, ◌-◌,
  ◌/◌, ◌∙◌, ◌≡◌, ◌≤◌, ◌⊎◌,
}
use looplet.Projection.{bisect}

-- It stays between its ends, and what it finds fits, if the lower end does or if it leaves that end.
pub bisect-fits :
    (fuel : ℕ) (test : ℕ → Bool) (lower upper : ℕ)
    → (bisect fuel test lower upper ≡ lower) ⊎ (test (bisect fuel test lower upper) ≡ true)
unfolding bisect
bisect-fits zero test lower upper = inl refl
bisect-fits (suc fuel) test lower upper =
    let middle = (lower + upper + 1) / 2 in
    elim (Bool-cases (ltb lower upper)) [
      | inr stop ↦ inl (rw (bisect, stop))
      | inl more ↦ elim (Bool-cases (test middle)) [
        | inl e ↦ inr (
            rw (bisect, more, e)
              (after fuel test middle upper e (bisect-fits fuel test middle upper)))
        | inr e ↦ rw (bisect, more, e) (bisect-fits fuel test lower (middle - 1))
      ]
    ]
  where
    after :
        (fuel' : ℕ) (test' : ℕ → Bool) (middle' upper' : ℕ)
        → test' middle' ≡ true
        → (bisect fuel' test' middle' upper' ≡ middle')
          ⊎ (test' (bisect fuel' test' middle' upper') ≡ true)
        → test' (bisect fuel' test' middle' upper') ≡ true
    after fuel' test' middle' upper' e (inl stays) = rw stays e
    after fuel' test' middle' upper' e (inr h) = h

-- The numbers that fit come before those that do not.
abbrev pub IsInitial : (ℕ → Bool) → Type 0
IsInitial test = (n m : ℕ) → n ≤ m → test m ≡ true → test n ≡ true

-- With a turn for each number between the ends, it finds the greatest number that fits: none beyond it,
-- up to the upper end, does.
pub bisect-greatest :
    (fuel : ℕ) (test : ℕ → Bool) (lower upper : ℕ)
    → IsInitial test
    → upper ≤ lower + fuel
    → (n : ℕ) → n ≤ upper
    → test n ≡ true
    → n ≤ bisect fuel test lower upper
unfolding bisect
bisect-greatest zero test lower upper initial enough n h e = omega arith
bisect-greatest (suc fuel) test lower upper initial enough n h e =
    let middle = (lower + upper + 1) / 2 in
    elim (Bool-cases (ltb lower upper)) [
      | inr stop ↦ rw (bisect, stop) (ground arith)
      | inl more ↦
          let inside = ltb→lt lower upper more in
          elim (Bool-cases (test middle)) [
            | inl t ↦
                rw (bisect, more, t)
                  (bisect-greatest fuel test middle upper initial (omega arith) n h e)
            | inr t ↦
                rw (bisect, more, t)
                  (bisect-greatest fuel test lower (middle - 1) initial (omega arith) n
                    (before test initial n middle t e) e)
          ]
    ]
  where
    before :
        (test' : ℕ → Bool) (initial' : IsInitial test') (n' middle' : ℕ)
        → test' middle' ≡ false
        → test' n' ≡ true
        → n' ≤ middle' - 1
    before test' initial' n' middle' t e' = elim (Bool-cases (ltb n' middle')) [
      | inl below ↦ let lt = ltb→lt n' middle' below in omega arith
      | inr above ↦
          let also = initial' middle' n' (ground arith) e' in
          let lost : false ≡ true = sym t ∙ also in absurd (cc)
    ]
