-- ===== src/Api/Paging.antt =====
-- The page that ListMessages asks the database for.
use web_mail.Base.{
  ℕ, ◌-◌, ◌*◌, ◌≡◌, ◌≤◌, ◌<◌, Text, none, some, ℤ, pos, negsuc, ◌<ℤ◌, ◌≤ℤ◌, arith, wrap64, ◌+ℤ◌,
  ◌*ℤ◌, int64_half, int64_mod, wrap64-pos, ◌∙◌, Option,
}
use web_mail.Strconv.{parse_int}
use web_mail.Strconv.RoundTrip.{parse_int-lt}
use web_mail.Api.Params.{paging, positive_or}

-- The page size is between 1 and 100 and the page at least 1, whatever the request says.
pub paging_bounds :
    (page per_page : Text)
    → (pos 1 ≤ℤ (paging page per_page).page)
      × (pos 1 ≤ℤ (paging page per_page).per_page)
      × ((paging page per_page).per_page ≤ℤ pos 100)
unfolding paging positive_or
paging_bounds page per_page = ground arith

previous : (p : ℕ) → 0 < p → p < int64_half → wrap64 (pos p +ℤ negsuc 0) ≡ pos (p - 1)
unfolding wrap64 ◌+ℤ◌
previous p h fits = ground arith

times : (a b : ℕ) → pos a *ℤ pos b ≡ pos (a * b)
unfolding ◌*ℤ◌
times a b = ground arith

positive_or-lt :
    (value : Text) (o : Option ℤ) (p : ℕ)
    → ((n : ℕ) → o ≡ some (pos n) → n < int64_half)
    → positive_or (pos 1) o ≡ pos p
    → (0 < p) × (p < int64_half)
unfolding positive_or
positive_or-lt value none p h e = ground arith
positive_or-lt value (some (pos n)) p h e = ground (arith, h n)
positive_or-lt value (some (negsuc n)) p h e = ground arith

-- The offset as the source computes it, from the page and the size that are answered.
offset_exact :
    (page per_page : Text) (p s : ℕ)
    → (paging page per_page).page ≡ pos p
    → (paging page per_page).per_page ≡ pos s
    → (paging page per_page).offset ≡ wrap64 (pos ((p - 1) * s))
unfolding paging
offset_exact page per_page p s e e' =
    let (above, fits) = positive_or-lt page (parse_int page) p (parse_int-lt page) e in
    rw (e, e', previous p above fits, times (p - 1) s)

-- As long as it fits into an int64 the offset is the number of rows on the pages before.
pub paging-offset :
    (page per_page : Text) (p s : ℕ)
    → (paging page per_page).page ≡ pos p
    → (paging page per_page).per_page ≡ pos s
    → (p - 1) * s < int64_half
    → (paging page per_page).offset ≡ pos ((p - 1) * s)
paging-offset page per_page p s e e' fits =
    offset_exact page per_page p s e e' ∙ wrap64-pos ((p - 1) * s) fits

wrap64-negative : (n : ℕ) → int64_half ≤ n → n < int64_mod → wrap64 (pos n) <ℤ pos 0
unfolding wrap64
wrap64-negative n low high = ground arith

-- A page so large that the product passes the largest int64 gives the database a negative offset.
pub paging-offset_wraps :
    (page per_page : Text) (p s : ℕ)
    → (paging page per_page).page ≡ pos p
    → (paging page per_page).per_page ≡ pos s
    → int64_half ≤ (p - 1) * s
    → (p - 1) * s < int64_mod
    → (paging page per_page).offset <ℤ pos 0
paging-offset_wraps page per_page p s e e' low high =
    rw (offset_exact page per_page p s e e') (wrap64-negative ((p - 1) * s) low high)
