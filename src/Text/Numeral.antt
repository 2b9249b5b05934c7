-- ===== src/Text/Numeral.antt =====
-- `int(str(n))`.
use Prim.Native.Char.{Char, code}
use Prim.Native.String.{char_at}
use Prim.Native.Nat.{◌/◌, ◌%◌, ◌<◌}
use carbon_ops_parser.Prelude.{
  ℕ, zero, suc, ◌+◌, ◌*◌, String, Bool, true, false, some, ltb, nat_eq, ◌≡◌, refl, ◌∙◌, ap, inl,
  inr, Bool-cases, arith,
}
use carbon_ops_parser.Text.{strip, lstrip, rstrip, is_space}
use carbon_ops_parser.Text.Number.{
  ℤ, show_onto, show, show_int, parse_int, is_digit, read_from, read_char, read_digits, read_signed,
  positive, negative,
}

abbrev digit : ℕ → Char
digit d = char_at "0123456789" d

code-digit : (d : ℕ) → d < 10 → code (digit d) ≡ 48 + d
code-digit zero h = refl
code-digit (suc zero) h = refl
code-digit (suc (suc zero)) h = refl
code-digit (suc (suc (suc zero))) h = refl
code-digit (suc (suc (suc (suc zero)))) h = refl
code-digit (suc (suc (suc (suc (suc zero))))) h = refl
code-digit (suc (suc (suc (suc (suc (suc zero)))))) h = refl
code-digit (suc (suc (suc (suc (suc (suc (suc zero))))))) h = refl
code-digit (suc (suc (suc (suc (suc (suc (suc (suc zero)))))))) h = refl
code-digit (suc (suc (suc (suc (suc (suc (suc (suc (suc zero))))))))) h = refl
code-digit (suc (suc (suc (suc (suc (suc (suc (suc (suc (suc d)))))))))) h = absurd (omega arith)

is_digit-digit : (d : ℕ) → d < 10 → is_digit (digit d) ≡ true
is_digit-digit d h = ground (arith, code-digit d h)

read_char-digit :
    (must : Bool) (n d : ℕ)
    → d < 10
    → read_char (some (must, n)) (digit d) ≡ some (false, n * 10 + d)
read_char-digit must n d h = ground (arith, code-digit d h)

read_from-digit :
    (must : Bool) (n d m : ℕ) (s : String)
    → d < 10
    → n * 10 + d ≡ m
    → read_from (some (must, n)) (String.◌∷◌ (digit d) s) ≡ read_from (some (false, m)) s
read_from-digit must n d m s h e =
    ap (λ r. read_from r s) (read_char-digit must n d h ∙ ap (λ k. some (false, k)) e)

read_from-show_onto :
    (fuel n : ℕ) (must : Bool) (s : String)
    → n < fuel
    → read_from (some (must, 0)) (show_onto fuel n s) ≡ read_from (some (false, n)) s
unfolding show_onto
read_from-show_onto zero n must s h = absurd (omega arith)
read_from-show_onto (suc fuel) n must s h = elim (Bool-cases (ltb n 10)) [
  | inl small ↦ rw small (read_from-digit must 0 (n % 10) n s (omega arith) (ground arith))
  | inr large ↦ rw large (
      read_from-show_onto fuel (n / 10) must (String.◌∷◌ (digit (n % 10)) s) (ground arith)
      ∙ read_from-digit false (n / 10) (n % 10) n s (omega arith) (omega arith))
]

abbrev AllDigits : String → Type 0
AllDigits String.[] = Unit
AllDigits (String.◌∷◌ c s) = (is_digit c ≡ true) × AllDigits s

show_onto-AllDigits : (fuel n : ℕ) (s : String) → AllDigits s → AllDigits (show_onto fuel n s)
unfolding show_onto
show_onto-AllDigits zero n s h = h
show_onto-AllDigits (suc fuel) n s h = elim (Bool-cases (ltb n 10)) [
  | inl small ↦ rw small (is_digit-digit (n % 10) (omega arith), h)
  | inr large ↦ rw large (
      show_onto-AllDigits fuel (n / 10) (String.◌∷◌ (digit (n % 10)) s)
        (is_digit-digit (n % 10) (omega arith), h))
]

abbrev NoSpace : String → Type 0
NoSpace String.[] = Unit
NoSpace (String.◌∷◌ c s) = (is_space (code c) ≡ false) × NoSpace s

AllDigits-NoSpace : (s : String) → AllDigits s → NoSpace s
unfolding is_space
AllDigits-NoSpace String.[] h = tt
AllDigits-NoSpace (String.◌∷◌ c s) (d, h) = (ground arith, AllDigits-NoSpace s h)

lstrip-NoSpace : (s : String) → NoSpace s → lstrip s ≡ s
unfolding lstrip
lstrip-NoSpace String.[] h = refl
lstrip-NoSpace (String.◌∷◌ c s) (d, h) = rw d refl

rstrip-NoSpace : (s : String) → NoSpace s → rstrip s ≡ s
unfolding rstrip
rstrip-NoSpace String.[] h = refl
rstrip-NoSpace (String.◌∷◌ c String.[]) (d, h) = rw d refl
rstrip-NoSpace (String.◌∷◌ c (String.◌∷◌ e s)) (d, h) = rw (rstrip-NoSpace (String.◌∷◌ e s) h) refl

strip-NoSpace : (s : String) → NoSpace s → strip s ≡ s
unfolding strip
strip-NoSpace s h = rw (lstrip-NoSpace s h, rstrip-NoSpace s h) refl

read_signed-AllDigits : (s : String) → AllDigits s → read_signed s ≡ positive (read_digits s)
read_signed-AllDigits String.[] h = refl
read_signed-AllDigits (String.◌∷◌ c s) (d, h) =
    let not_minus : nat_eq (code c) 45 ≡ false = ground arith in
    let not_plus : nat_eq (code c) 43 ≡ false = ground arith in rw (not_minus, not_plus) refl

show-AllDigits : (n : ℕ) → AllDigits (show n)
unfolding show
show-AllDigits n = show_onto-AllDigits (suc n) n "" tt

read_digits-show : (n : ℕ) → read_digits (show n) ≡ some n
unfolding show
read_digits-show n = read_from-show_onto (suc n) n true "" (omega arith)

positive-show : (n : ℕ) → read_signed (show n) ≡ some (ℤ.pos n)
positive-show n =
    read_signed-AllDigits (show n) (show-AllDigits n) ∙ ap positive (read_digits-show n)

-- A text of an integer reads back as the integer.
pub parse_int-show_int : (n : ℤ) → parse_int (show_int n) ≡ some n
unfolding parse_int show_int is_space
parse_int-show_int (ℤ.pos n) =
    rw (strip-NoSpace (show n) (AllDigits-NoSpace (show n) (show-AllDigits n))) (positive-show n)
parse_int-show_int (ℤ.negsuc n) =
    rw
      (strip-NoSpace (String.◌∷◌ (char_at "-" 0) (show (suc n)))
        (refl, AllDigits-NoSpace (show (suc n)) (show-AllDigits (suc n))))
      (ap negative (read_digits-show (suc n)))
