-- ===== src/Strconv/RoundTrip.antt =====
-- What FormatInt prints, ParseInt reads back.
use web_mail.Base.{
  ℕ, zero, suc, ◌+◌, ◌/◌, ◌%◌, ◌<◌, ◌≡◌, ◌∙◌, ap, inl, inr, [], ◌∷◌, some, arith, Text, pos,
  int64_half, Option, none, ◌≢◌, ◌==◌, Bool-cases,
}
use web_mail.Strconv.{digits_value, in_range, in_range_neg, unsigned, parse_int, emit, format_nat}

-- Reading the digits of `n` and then a rest is reading the rest behind `n`.
digits_value-emit :
    (fuel n : ℕ) (out : Text) → n < fuel → digits_value 0 (emit fuel n out) ≡ digits_value n out
unfolding emit digits_value
digits_value-emit zero n out h = elim h [ ]
digits_value-emit (suc fuel) n out h =
    ground (arith, digits_value-emit fuel (n / 10) ((b'0' + n % 10) ∷ out))

-- The print begins with a digit.
abbrev StartsWithDigit : Text → Type 0
StartsWithDigit [] = ⊥
StartsWithDigit (c ∷ s) = (c < 58) × (47 < c)

emit-StartsWithDigit : (fuel n : ℕ) (out : Text) → n < fuel → StartsWithDigit (emit fuel n out)
unfolding emit
emit-StartsWithDigit zero n out h = elim h [ ]
emit-StartsWithDigit (suc fuel) n out h = elim (Bool-cases (n / 10 == 0)) [
  | inl last ↦ rw last (omega arith)
  | inr more ↦ rw more (emit-StartsWithDigit fuel (n / 10) _ (ground arith))
]

parse_int-digit : (s : Text) → StartsWithDigit s → parse_int s ≡ in_range (digits_value 0 s)
unfolding parse_int
parse_int-digit [] h = absurd h
parse_int-digit (c ∷ s) h = ground arith

pub parse_int-format_nat : (n : ℕ) → n < int64_half → parse_int (format_nat n) ≡ some (pos n)
unfolding format_nat
parse_int-format_nat n h =
    parse_int-digit _ (emit-StartsWithDigit (suc n) n [] (omega arith))
    ∙ ap in_range (digits_value-emit (suc n) n [] (omega arith))
    ∙ unfold in_range digits_value in ground arith

in_range-lt : (o : Option ℕ) (n : ℕ) → in_range o ≡ some (pos n) → n < int64_half
unfolding in_range
in_range-lt none n e = cc
in_range-lt (some m) n e = ground arith

in_range_neg-lt : (o : Option ℕ) (n : ℕ) → in_range_neg o ≡ some (pos n) → n < int64_half
unfolding in_range_neg
in_range_neg-lt none n e = cc
in_range_neg-lt (some zero) n e = ground arith
in_range_neg-lt (some (suc m)) n e = ground arith

-- A number that was read fits into an int64.
pub parse_int-lt : (s : Text) (n : ℕ) → parse_int s ≡ some (pos n) → n < int64_half
unfolding parse_int
parse_int-lt [] n e = cc
parse_int-lt (c ∷ s) n e = ground (
  arith,
  in_range-lt (unsigned s) n,
  in_range_neg-lt (unsigned s) n,
  in_range-lt (unsigned (c ∷ s)) n,
)

pub format_nat-ne-nil : (n : ℕ) → format_nat n ≢ []
unfolding format_nat
format_nat-ne-nil n e = rw e at (emit-StartsWithDigit (suc n) n [] (omega arith))
