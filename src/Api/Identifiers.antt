-- ===== src/Api/Identifiers.antt =====
-- The ids in URLs.
use web_mail.Base.{
  ℕ, ◌≡◌, refl, ◌↔◌, ◌⊎◌, inl, inr, is_empty, ◌<◌, Option, none, some, Text, text_eq_iff,
  text_eq_refl, is_empty_iff, ℤ, pos, negsuc, ◌<ℤ◌, ◌≤ℤ◌, int64_half, arith, false,
}
use web_mail.Strconv.{parse_int, format_int, format_nat}
use web_mail.Strconv.RoundTrip.{parse_int-format_nat, parse_int-lt, format_nat-ne-nil}
use web_mail.Api.Params.{accept, numeric_url_param, numeric_url_param_allow_zero}

accept-cases :
    (below : ℤ) (value : Text) (found : Option ℤ) (id : ℤ)
    → accept below value found ≡ some id
    → (found ≡ some id) × (below <ℤ id) × (value ≡ format_int id)
unfolding accept
accept-cases below value none id e = cc
accept-cases below value (some parsed) id e = ground (arith, text_eq_iff (format_int parsed) value)

-- A value that is accepted is the decimal print of the number.
to_print :
    (below : ℤ) (value : Text) (id : ℤ)
    → pos 0 ≤ℤ below ⊎ (below ≡ negsuc 0)
    → accept below value (parse_int value) ≡ some id
    → (n : ℕ) × (id ≡ pos n) × (below <ℤ pos n) × (n < int64_half) × (value ≡ format_nat n)
unfolding format_int
to_print below value (pos n) b e =
    let (read, above, same) = accept-cases below value (parse_int value) (pos n) e in
    (n, refl, above, parse_int-lt value n read, same)
to_print below value (negsuc n) b e =
    let (read, above, same) = accept-cases below value (parse_int value) (negsuc n) e in
    absurd (ground arith)

from_print :
    (below : ℤ) (n : ℕ)
    → below <ℤ pos n
    → n < int64_half
    → accept below (format_nat n) (parse_int (format_nat n)) ≡ some (pos n)
unfolding accept format_int
from_print below n above fits =
    rw (parse_int-format_nat n fits) (ground (arith, text_eq_refl (format_nat n)))

not-is_empty-format_nat : (n : ℕ) → is_empty (format_nat n) ≡ false
not-is_empty-format_nat n = ground (arith, is_empty_iff (format_nat n), format_nat-ne-nil n)

-- A URL names a message exactly by the plain decimal print of a positive int64: no sign, no leading
-- zero, no space, nothing out of range.
pub numeric_url_param_iff :
    (value : Text) (id : ℤ)
    → (numeric_url_param value ≡ some id)
      ↔ ((n : ℕ) × (id ≡ pos n) × (0 < n) × (n < int64_half) × (value ≡ format_nat n))
unfolding numeric_url_param
numeric_url_param_iff value id = (
  λ e.
      let (n, same, above, fits, printed) =
        to_print (pos 0) value id (inl (omega arith)) (ground arith) in
      (n, same, omega arith, fits, printed),
  λ p.
      let (n, same, above, fits, printed) = p in
      rw (same, printed, not-is_empty-format_nat) (from_print (pos 0) n (omega arith) fits),
)

-- An attachment's index is named in the same way, and may be zero.
pub numeric_url_param_allow_zero_iff :
    (value : Text) (id : ℤ)
    → (numeric_url_param_allow_zero value ≡ some id)
      ↔ ((n : ℕ) × (id ≡ pos n) × (n < int64_half) × (value ≡ format_nat n))
unfolding numeric_url_param_allow_zero
numeric_url_param_allow_zero_iff value id = (
  λ e.
      let (n, same, above, fits, printed) =
        to_print (negsuc 0) value id (inr refl) (ground arith) in
      (n, same, fits, printed),
  λ p.
      let (n, same, fits, printed) = p in
      rw (same, printed, not-is_empty-format_nat) (from_print (negsuc 0) n (omega arith) fits),
)
