-- ===== src/Conversation/Truncation.antt =====
-- What `truncate` keeps of a thread of distinct messages.
use looplet.Prelude.{
  All, All-keep_if, Bool, Bool-cases, List, [], any, ap, arith, drop, false, inl, inr, keep_if,
  keep_if-All, keep_if-append, keep_if-none, leb, length, not, refl, subst, sym, take,
  take-append-drop, true, ℕ, ◌++◌, ◌-◌, ◌<◌, ◌==◌, ◌∙◌, ◌∷◌, ◌≡◌,
}
use mathlib.Core.List.{append-nil}
use looplet.Conversation.{Conversation, Message, is_among, is_system, truncate}

-- no two messages of the list are the same object
abbrev pub IsDistinct : List Message → Type 0
IsDistinct [] = Unit
IsDistinct (m ∷ ms) = (is_among ms m ≡ false) × IsDistinct ms

is_among-skip :
    (m : Message) (xs ys : List Message) → is_among (xs ++ ys) m ≡ false → is_among ys m ≡ false
is_among-skip m [] ys h = h
is_among-skip m (x ∷ xs) ys h = elim (Bool-cases (x.ident == m.ident)) [
  | inl e ↦ let contradiction : true ≡ false = rw (any, e) at h in cc
  | inr e ↦ is_among-skip m xs ys (rw (any, e) at h)
]

before-All :
    (xs ys : List Message) → IsDistinct (xs ++ ys) → All (λ m. not (is_among ys m) ≡ true) xs
before-All [] ys h = tt
before-All (x ∷ xs) ys (hx, h) = (ap not (is_among-skip x xs ys hx), before-All xs ys h)

is_among-weaken :
    (m x : Message) (xs : List Message) → is_among xs m ≡ true → is_among (x ∷ xs) m ≡ true
is_among-weaken m x xs h = elim (Bool-cases (x.ident == m.ident)) [
  | inl e ↦ rw (any, e)
  | inr e ↦ rw (any, e) h
]

weaken-All :
    (x : Message) (xs ys : List Message)
    → All (λ m. not (is_among xs m) ≡ false) ys
    → All (λ m. not (is_among (x ∷ xs) m) ≡ false) ys
weaken-All x xs [] h = tt
weaken-All x xs (y ∷ ys) (hy, h) =
    (ap not (is_among-weaken y x xs (negated_test (is_among xs y) hy)), weaken-All x xs ys h)
  where
    negated_test : (b : Bool) → not b ≡ false → b ≡ true
    negated_test true e = refl
    negated_test false e = cc

itself : (n : ℕ) → (n == n) ≡ true
itself n = ground arith

among-All : (xs : List Message) → All (λ m. not (is_among xs m) ≡ false) xs
among-All [] = tt
among-All (x ∷ xs) = (ap not found, weaken-All x xs xs (among-All xs))
  where
    found : is_among (x ∷ xs) x ≡ true
    found = rw (any, itself x.ident)

merged-lem :
    (old recent : List Message)
    → IsDistinct (old ++ recent)
    → keep_if (λ m. not (is_among recent m)) (keep_if is_system (old ++ recent))
      ≡ keep_if is_system old
merged-lem old recent h =
    ap (keep_if (λ m. not (is_among recent m))) (keep_if-append is_system old recent)
    ∙ keep_if-append (λ m. not (is_among recent m)) (keep_if is_system old)
        (keep_if is_system recent)
    ∙ ap (λ ms. ms ++ keep_if (λ m. not (is_among recent m)) (keep_if is_system recent))
        (keep_if-All _ (keep_if is_system old)
          (All-keep_if _ is_system old (before-All old recent h)))
    ∙ ap (λ ms. keep_if is_system old ++ ms)
        (keep_if-none _ (keep_if is_system recent)
          (All-keep_if _ is_system recent (among-All recent)))
    ∙ append-nil (keep_if is_system old)

-- Truncating a thread of distinct messages to the last `keep_last` ones, at least one, keeps exactly
-- the system messages before them, once each, and then those messages, all in their order.
pub truncate-window :
    (k : ℕ) (c : Conversation)
    → 0 < k
    → IsDistinct c.messages
    → (truncate k true c).messages
      ≡ keep_if is_system (take (length c.messages - k) c.messages)
        ++ drop (length c.messages - k) c.messages
unfolding truncate
truncate-window k c pos_k distinct = elim (Bool-cases (leb (length c.messages) k)) [
  | inl e ↦
      let nothing_dropped = fits_whole (length c.messages) k e in
      rw (truncate, e, nothing_dropped) refl
  | inr e ↦
      let n = length c.messages - k in
      rw (truncate, e, not_zero k pos_k)
        (ap
            (λ ms.
              keep_if (λ m. not (is_among (drop n c.messages) m)) (keep_if is_system ms)
              ++ drop n c.messages)
            (sym (take-append-drop n c.messages))
          ∙ ap (λ ms. ms ++ drop n c.messages)
              (merged-lem (take n c.messages) (drop n c.messages)
                (subst IsDistinct (sym (take-append-drop n c.messages)) distinct)))
]
  where
    fits_whole : (n m : ℕ) → leb n m ≡ true → n - m ≡ 0
    fits_whole n m h = ground arith

    not_zero : (n : ℕ) → 0 < n → (n == 0) ≡ false
    not_zero n h = ground arith
