-- ===== src/Text/Number.antt =====
-- `str.join`, slices, `str(n)`, `int(text)` and the search for a year in a text.
use Prim.Native.Char.{Char, code}
use Prim.Native.String
use Prim.Native.String.{char_at}
use Prim.Native.Nat.{◌/◌, ◌%◌}
use carbon_ops_parser.Prelude.{
  ℕ, zero, suc, ◌+◌, ◌-◌, ◌*◌, String, Bool, true, false, not, ◌&&◌, Option, none, some, List, [],
  ◌∷◌, ltb, leb, nat_eq, if◌then◌else◌, ◌≡◌, refl,
}
use carbon_ops_parser.Text.{strip}

-- A Python `int`.
pub data ℤ : Type 0 where
  pos : ℕ → ℤ
  negsuc : ℕ → ℤ

abbrev pub same_int : ℤ → ℤ → Bool
same_int (ℤ.pos m) (ℤ.pos n) = nat_eq m n
same_int (ℤ.negsuc m) (ℤ.negsuc n) = nat_eq m n
same_int (ℤ.pos m) (ℤ.negsuc n) = false
same_int (ℤ.negsuc m) (ℤ.pos n) = false

-- `sep.join(parts)`
abbrev pub join : String → List String → String
join sep [] = ""
join sep (s ∷ []) = s
join sep (s ∷ t ∷ rest) = String.◌++◌ s (String.◌++◌ sep (join sep (t ∷ rest)))

-- an f-string, or adjacent texts
abbrev pub concat : List String → String
concat parts = join "" parts

-- `s.split(separator)`, at a separator of one character
abbrev onto_first : Char → List String → List String
onto_first c [] = String.◌∷◌ c "" ∷ []
onto_first c (part ∷ parts) = String.◌∷◌ c part ∷ parts

unfoldable pub split_char : Char → String → List String
split_char separator String.[] = "" ∷ []
split_char separator (String.◌∷◌ c s) =
    let rest = split_char separator s in
    if nat_eq (code c) (code separator) then "" ∷ rest else onto_first c rest

-- `s[:n]`
abbrev pub first : ℕ → String → String
first zero s = ""
first (suc n) String.[] = ""
first (suc n) (String.◌∷◌ c s) = String.◌∷◌ c (first n s)

-- The digits of a number that has at most `fuel` of them, in front of a text.
unfoldable pub show_onto : ℕ → ℕ → String → String
show_onto zero n s = s
show_onto (suc fuel) n s =
    let digits = String.◌∷◌ (char_at "0123456789" (n % 10)) s in
    let rest = show_onto fuel (n / 10) digits in if ltb n 10 then digits else rest

-- `str(n)`: a number has at most as many digits as one more than its value.
unfoldable pub show : ℕ → String
unfolding show_onto
show n = show_onto (suc n) n ""

-- `str(n)`, for an integer
unfoldable pub show_int : ℤ → String
unfolding show
show_int (ℤ.pos n) = show n
show_int (ℤ.negsuc n) = String.◌∷◌ (char_at "-" 0) (show (suc n))

abbrev pub is_digit : Char → Bool
is_digit c = leb 48 (code c) && leb (code c) 57

-- What `int` has read: whether a digit must come next, and the value so far.
abbrev pub Reading : Type 0
Reading = Option (Bool × ℕ)

abbrev pub read_char : Reading → Char → Reading
read_char none c = none
read_char (some (must, n)) c =
    if is_digit c
    then some (false, n * 10 + (code c - 48))
    else if nat_eq (code c) 95 && not must
    then some (true, n)
    else none

abbrev pub finish : Reading → Option ℕ
finish none = none
finish (some (must, n)) = if must then none else some n

abbrev pub read_from : Reading → String → Option ℕ
read_from r String.[] = finish r
read_from r (String.◌∷◌ c s) = read_from (read_char r c) s

-- Digits, with single underscores between them.
abbrev pub read_digits : String → Option ℕ
read_digits s = read_from (some (true, 0)) s

abbrev pub positive : Option ℕ → Option ℤ
positive none = none
positive (some n) = some (ℤ.pos n)

abbrev pub negative : Option ℕ → Option ℤ
negative none = none
negative (some zero) = some (ℤ.pos 0)
negative (some (suc n)) = some (ℤ.negsuc n)

abbrev pub read_signed : String → Option ℤ
read_signed String.[] = none
read_signed (String.◌∷◌ c s) =
    if nat_eq (code c) 45
    then negative (read_digits s)
    else if nat_eq (code c) 43
    then positive (read_digits s)
    else positive (read_digits (String.◌∷◌ c s))

-- `int(text)`, with `none` for a `ValueError`; the digits are ASCII ones.
unfoldable pub parse_int : String → Option ℤ
unfolding strip
parse_int text = read_signed (strip text)

-- `candidate.isdecimal() and 1900 <= int(candidate) <= 2999`, for ASCII characters
abbrev is_year : String → Bool
is_year String.[] = false
is_year (String.◌∷◌ a (String.◌∷◌ b (String.◌∷◌ c (String.◌∷◌ d String.[])))) =
    let n = (code a - 48) * 1000 + (code b - 48) * 100 + (code c - 48) * 10 + (code d - 48) in
    is_digit a && is_digit b && is_digit c && is_digit d && leb 1900 n && leb n 2999
is_year _ = false

-- `_year_from_text` of persistence/parsed_factor_persistence_writer.py: the first four characters in
-- a row that are a year.
unfoldable pub year_from_text : String → Option String
year_from_text String.[] = none
year_from_text (String.◌∷◌ c s) =
    let rest = year_from_text s in
    let candidate = first 4 (String.◌∷◌ c s) in if is_year candidate then some candidate else rest

show_example : show 2024 ≡ "2024"
unfolding show
show_example = refl

parse_int_example : parse_int " -1_0 " ≡ some (ℤ.negsuc 9)
unfolding parse_int
parse_int_example = refl

year_from_text_example : year_from_text "v12019b" ≡ some "2019"
unfolding year_from_text
year_from_text_example = refl
