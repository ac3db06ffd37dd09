-- ===== src/Parse/Scan.antt =====
-- Texts, and the escaping of the control characters inside strings: `_escape_literal_newlines` of
-- src/looplet/parse.py.
use looplet.Prelude.{Bool, List, Option, [], false, if◌then◌else◌, none, some, true, ℕ, ◌==◌, ◌∷◌}

abbrev pub Text : Type 0
Text = List ℕ

-- the code points that the scan tells apart
abbrev pub quote : ℕ
quote = 34

abbrev pub backslash : ℕ
backslash = 92

-- the escape of a line feed, a carriage return or a tab; `none` for any other code point
unfoldable pub escape_of : ℕ → Option ℕ
escape_of ch =
    if ch == 10 then some 110 else if ch == 13 then some 114 else if ch == 9 then some 116 else none

-- a code point inside a string
abbrev pub put_escaped : ℕ → Option ℕ → Text → Text
put_escaped ch none rest = ch ∷ rest
put_escaped ch (some letter) rest = backslash ∷ letter ∷ rest

-- where the scan is: outside of a string, inside, or inside behind a backslash
pub data Place : Type 0 where
  outside inside escaped : Place

unfoldable pub next_place : Place → ℕ → Place
next_place outside ch = if ch == quote then inside else outside
next_place inside ch = if ch == backslash then escaped else if ch == quote then outside else inside
next_place escaped ch = inside

-- `_escape_literal_newlines`, from a place; behind a backslash a code point is copied, whatever it is
unfoldable pub escape_from : Place → Text → Text
unfolding escape_of next_place
escape_from place [] = []
escape_from outside (ch ∷ rest) = ch ∷ escape_from (next_place outside ch) rest
escape_from inside (ch ∷ rest) =
    put_escaped ch (escape_of ch) (escape_from (next_place inside ch) rest)
escape_from escaped (ch ∷ rest) = ch ∷ escape_from (next_place escaped ch) rest

unfoldable pub escape_literal_newlines : Text → Text
unfolding escape_from
escape_literal_newlines raw = escape_from outside raw

abbrev pub same_text : Text → Text → Bool
same_text [] [] = true
same_text (a ∷ as') (b ∷ bs) = let rest = same_text as' bs in if a == b then rest else false
same_text _ _ = false
