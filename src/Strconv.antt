-- ===== src/Strconv.antt =====
-- The decimal conversions of Go's package strconv that the program calls with base 10 and 64 bits:
-- ParseInt (and Atoi, which agrees with it) and FormatInt (and Itoa, and `%d` of package fmt).
pub mod RoundTrip
use web_mail.Base.{
  ℕ, zero, suc, ◌+◌, ◌-◌, ◌*◌, ◌/◌, ◌%◌, ◌≡◌, refl, ◌&&◌, List, [], ◌∷◌, Option, none, some, Text,
  codes, ℤ, pos, negsuc, int64_half, ltb, leb, ◌==◌, if◌then◌else◌,
}

digits_value : ℕ → Text → Option ℕ
digits_value acc [] = some acc
digits_value acc (c ∷ s) =
    if leb b'0' c && leb c b'9' then digits_value (acc * 10 + (c - b'0')) s else none

unsigned : Text → Option ℕ
unsigned [] = none
unsigned (c ∷ s) = digits_value 0 (c ∷ s)

-- A magnitude that does not fit is a range error.
in_range : Option ℕ → Option ℤ
in_range none = none
in_range (some n) = if ltb n int64_half then some (pos n) else none

in_range_neg : Option ℕ → Option ℤ
in_range_neg none = none
in_range_neg (some zero) = some (pos 0)
in_range_neg (some (suc n)) = if ltb n int64_half then some (negsuc n) else none

-- `none` stands for every error.
unfoldable pub parse_int : Text → Option ℤ
unfolding digits_value unsigned in_range in_range_neg
parse_int [] = none
parse_int (c ∷ s) =
    if c == b'+'
    then in_range (unsigned s)
    else if c == b'-'
    then in_range_neg (unsigned s)
    else in_range (unsigned (c ∷ s))

-- The digits of a number in front of a text; `suc n` rounds are enough for `n`.
emit : ℕ → ℕ → Text → Text
emit zero n out = out
emit (suc fuel) n out =
    let more = emit fuel (n / 10) ((b'0' + n % 10) ∷ out) in
    if n / 10 == 0 then (b'0' + n % 10) ∷ out else more

unfoldable pub format_nat : ℕ → Text
unfolding emit
format_nat n = emit (suc n) n []

unfoldable pub format_int : ℤ → Text
unfolding format_nat
format_int (pos n) = format_nat n
format_int (negsuc n) = b'-' ∷ format_nat (suc n)

parse_tests :
    (parse_int (codes "+07") ≡ some (pos 7))
    × (parse_int (codes "-9223372036854775808") ≡ some (negsuc 9223372036854775807))
    × (parse_int (codes "9223372036854775808") ≡ none)
    × (parse_int (codes "1_0") ≡ none)
unfolding parse_int
parse_tests = (refl, refl, refl, refl)

format_tests :
    (format_int (pos 1204) ≡ codes "1204")
    × (format_int (negsuc 0) ≡ codes "-1")
    × (format_int (pos 0) ≡ codes "0")
unfolding format_int
format_tests = (refl, refl, refl)
