-- ===== src/Text.antt =====
-- The methods of `str` that the program uses: `strip`, `lower` on the names it looks up, and the
-- order of texts.
pub mod Number
pub mod Numeral
use Prim.Native.Char.{Char, code}
use Prim.Native.String.{[], ◌∷◌, char_at}
use carbon_ops_parser.Prelude.{
  ℕ, ◌-◌, String, Bool, true, false, ◌&&◌, ◌||◌, ltb, leb, nat_eq, if◌then◌else◌, ◌==◌, ◌≡◌, refl,
  arith,
}

-- `s < t`: lexicographic, by code points.
unfoldable pub text_lt : String → String → Bool
text_lt [] [] = false
text_lt [] (d ∷ t) = true
text_lt (c ∷ s) [] = false
text_lt (c ∷ s) (d ∷ t) = ltb (code c) (code d) || (nat_eq (code c) (code d) && text_lt s t)

-- The code points that `str.strip()` removes.
unfoldable pub is_space : ℕ → Bool
is_space c =
    (leb 9 c && leb c 13)
    || (leb 28 c && leb c 32)
    || nat_eq c 133
    || nat_eq c 160
    || nat_eq c 5760
    || (leb 8192 c && leb c 8202)
    || nat_eq c 8232
    || nat_eq c 8233
    || nat_eq c 8239
    || nat_eq c 8287
    || nat_eq c 12288

unfoldable pub lstrip : String → String
unfolding is_space
lstrip [] = []
lstrip (c ∷ s) = let rest = lstrip s in if is_space (code c) then rest else c ∷ s

-- A character in front of a text whose right end is stripped already.
abbrev strip_onto : Char → String → String
strip_onto c [] = if is_space (code c) then [] else c ∷ []
strip_onto c (d ∷ s) = c ∷ d ∷ s

unfoldable pub rstrip : String → String
unfolding is_space
rstrip [] = []
rstrip (c ∷ s) = strip_onto c (rstrip s)

unfoldable pub strip : String → String
unfolding lstrip rstrip
strip s = rstrip (lstrip s)

-- `not s.strip()`
unfoldable pub is_blank : String → Bool
unfolding strip
is_blank s = strip s == ""

-- `str.lower()`, on ASCII letters and the Kelvin sign, whose lower case is `k`. The program looks the
-- result up among ASCII names. The only other character whose lower case holds an ASCII letter is
-- U+0130 (an `i` and a combining dot), and it stays as it is, so the look-ups have the same results.
abbrev lower_char : Char → Char
lower_char c =
    if leb 65 (code c) && leb (code c) 90
    then char_at "abcdefghijklmnopqrstuvwxyz" (code c - 65)
    else if nat_eq (code c) 8490
    then char_at "k" 0
    else c

unfoldable pub lower : String → String
lower [] = []
lower (c ∷ s) = lower_char c ∷ lower s

-- `s.replace(old, new)`, at single characters
unfoldable pub replace_char : Char → Char → String → String
replace_char old new [] = []
replace_char old new (c ∷ s) =
    (if nat_eq (code c) (code old) then new else c) ∷ replace_char old new s

-- `s.replace(old, "")`, at a single character
unfoldable pub remove_char : Char → String → String
remove_char old [] = []
remove_char old (c ∷ s) =
    let rest = remove_char old s in if nat_eq (code c) (code old) then rest else c ∷ rest

lower-strip : lower (strip " \tDEFRA_Desnz\n ") ≡ "defra_desnz"
unfolding lower strip
lower-strip = refl

pub text_lt_irrefl : (s : String) → text_lt s s ≡ false
unfolding text_lt
text_lt_irrefl [] = refl
text_lt_irrefl (c ∷ s) = ground (arith, text_lt_irrefl s)

pub text_lt_asymm : (s t : String) → text_lt s t ≡ true → text_lt t s ≡ false
unfolding text_lt
text_lt_asymm [] [] h = refl
text_lt_asymm [] (d ∷ t) h = refl
text_lt_asymm (c ∷ s) [] h = cc
text_lt_asymm (c ∷ s) (d ∷ t) h = ground (arith, text_lt_asymm s t)
