-- ===== src/Parse/Escape.antt =====
-- What the escaping of literal control characters does to a text.
use looplet.Prelude.{
  Bool-cases, List, [], ap, arith, false, if◌then◌else◌, inl, inr, none, refl, some, subst, sym, ℕ,
  ◌==◌, ◌∙◌, ◌∷◌, ◌≡◌, ◌⊎◌,
}
use looplet.Parse.{
  Place, Text, backslash, escape_from, escape_literal_newlines, escape_of, escaped, inside,
  next_place, outside, put_escaped, quote,
}

-- Inside a string there is no line feed, carriage return or tab, but behind a backslash.
abbrev pub IsClean : Place → Text → Type 0
IsClean place [] = Unit {0}
IsClean outside (ch ∷ rest) = IsClean (next_place outside ch) rest
IsClean inside (ch ∷ rest) = (escape_of ch ≡ none) × IsClean (next_place inside ch) rest
IsClean escaped (ch ∷ rest) = IsClean (next_place escaped ch) rest

-- What a lenient reader of JSON sees: code points outside of strings, characters inside, whether they
-- stand there or are escaped, and other escapes.
pub data Token : Type 0 where
  mark character other_escape : ℕ → Token

abbrev pub token_of_escape : ℕ → Token
token_of_escape ch =
    if ch == 110
    then character 10
    else if ch == 114
    then character 13
    else if ch == 116
    then character 9
    else other_escape ch

unfoldable pub read_from : Place → Text → List Token
read_from place [] = []
read_from outside (ch ∷ rest) = mark ch ∷ read_from (next_place outside ch) rest
read_from inside (ch ∷ rest) =
    let later = read_from (next_place inside ch) rest in
    if ch == backslash then later else character ch ∷ later
read_from escaped (ch ∷ rest) = token_of_escape ch ∷ read_from (next_place escaped ch) rest

escape_of-cases :
    (ch : ℕ)
    → (escape_of ch ≡ none)
      ⊎ ((letter : ℕ) × (escape_of ch ≡ some letter)
          × (token_of_escape letter ≡ character ch)
          × (ch == backslash ≡ false)
          × (ch == quote ≡ false))
unfolding escape_of
escape_of-cases ch = elim (Bool-cases (ch == 10)) [
  | inl a ↦ inr (110, rw a, ground arith, ground arith, ground arith)
  | inr a ↦ elim (Bool-cases (ch == 13)) [
    | inl b ↦ inr (114, rw (a, b), ground arith, ground arith, ground arith)
    | inr b ↦ elim (Bool-cases (ch == 9)) [
      | inl d ↦ inr (116, rw (a, b, d), ground arith, ground arith, ground arith)
      | inr d ↦ inl (rw (a, b, d))
    ]
  ]
]

-- the escape of a character is read as the character, and the scan goes on inside the string
escaped_place :
    (ch : ℕ) → ch == backslash ≡ false → ch == quote ≡ false → next_place inside ch ≡ inside
unfolding next_place
escaped_place ch b q = rw (b, q)

backslash_plain : escape_of backslash ≡ none
unfolding escape_of
backslash_plain = refl

-- what the scan writes for a code point inside a string, read back
put_escaped-IsClean :
    (ch : ℕ) (rest : Text)
    → IsClean (next_place inside ch) rest
    → IsClean inside (put_escaped ch (escape_of ch) rest)
unfolding next_place
put_escaped-IsClean ch rest clean = elim (escape_of-cases ch) [
  | inl plain ↦ subst (λ o. IsClean inside (put_escaped ch o rest)) (sym plain) (plain, clean)
  | inr (letter, found, read, b, q) ↦
      subst (λ o. IsClean inside (put_escaped ch o rest)) (sym found)
        (backslash_plain, subst (λ p. IsClean p rest) (escaped_place ch b q) clean)
]

escape_from-IsClean : (place : Place) (t : Text) → IsClean place (escape_from place t)
unfolding escape_from
escape_from-IsClean place [] = tt
escape_from-IsClean outside (ch ∷ rest) = escape_from-IsClean (next_place outside ch) rest
escape_from-IsClean inside (ch ∷ rest) =
    put_escaped-IsClean ch (escape_from (next_place inside ch) rest)
      (escape_from-IsClean (next_place inside ch) rest)
escape_from-IsClean escaped (ch ∷ rest) = escape_from-IsClean (next_place escaped ch) rest

read_character :
    (ch : ℕ) (rest : Text)
    → ch == backslash ≡ false
    → ch == quote ≡ false
    → read_from inside (ch ∷ rest) ≡ character ch ∷ read_from inside rest
unfolding next_place read_from
read_character ch rest b q = rw (b, q)

read_put_escaped :
    (ch : ℕ) (rest : Text)
    → read_from inside (put_escaped ch (escape_of ch) rest) ≡ read_from inside (ch ∷ rest)
unfolding next_place read_from
read_put_escaped ch rest = elim (escape_of-cases ch) [
  | inl plain ↦ ap (λ o. read_from inside (put_escaped ch o rest)) plain
  | inr (letter, found, read, b, q) ↦
      ap (λ o. read_from inside (put_escaped ch o rest)) found
      ∙ ap (λ x. x ∷ read_from inside rest) read
      ∙ sym (read_character ch rest b q)
]

cons_read :
    (ch : ℕ) (r s : Text)
    → read_from (next_place inside ch) r ≡ read_from (next_place inside ch) s
    → read_from inside (ch ∷ r) ≡ read_from inside (ch ∷ s)
unfolding read_from
cons_read ch r s same = rw same

read_from-escape_from :
    (place : Place) (t : Text) → read_from place (escape_from place t) ≡ read_from place t
unfolding escape_from read_from
read_from-escape_from place [] = refl
read_from-escape_from outside (ch ∷ rest) =
    ap (λ xs. mark ch ∷ xs) (read_from-escape_from (next_place outside ch) rest)
read_from-escape_from inside (ch ∷ rest) =
    read_put_escaped ch (escape_from (next_place inside ch) rest)
    ∙ cons_read ch _ _ (read_from-escape_from (next_place inside ch) rest)
read_from-escape_from escaped (ch ∷ rest) =
    ap (λ xs. token_of_escape ch ∷ xs) (read_from-escape_from (next_place escaped ch) rest)

escape_from_of_IsClean : (place : Place) (t : Text) → IsClean place t → escape_from place t ≡ t
unfolding escape_from
escape_from_of_IsClean place [] clean = refl
escape_from_of_IsClean outside (ch ∷ rest) clean =
    ap (λ xs. ch ∷ xs) (escape_from_of_IsClean (next_place outside ch) rest clean)
escape_from_of_IsClean inside (ch ∷ rest) (plain, clean) =
    rw (plain, escape_from_of_IsClean (next_place inside ch) rest clean)
escape_from_of_IsClean escaped (ch ∷ rest) clean =
    ap (λ xs. ch ∷ xs) (escape_from_of_IsClean (next_place escaped ch) rest clean)

-- For every text: after the escaping, no string of the text has a literal line feed, carriage return or
-- tab that is not behind a backslash; a reader that takes a literal control character in a string and its
-- escape for the same character reads the escaped text as it reads the text; and a second escaping
-- changes nothing.
pub escape_literal_newlines-faithful :
    (t : Text)
    → IsClean outside (escape_literal_newlines t)
      × (read_from outside (escape_literal_newlines t) ≡ read_from outside t)
      × (escape_literal_newlines (escape_literal_newlines t) ≡ escape_literal_newlines t)
unfolding escape_literal_newlines
escape_literal_newlines-faithful t = (
  escape_from-IsClean outside t,
  read_from-escape_from outside t,
  escape_from_of_IsClean outside (escape_from outside t) (escape_from-IsClean outside t),
)
