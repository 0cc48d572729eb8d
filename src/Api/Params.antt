-- ===== src/Api/Params.antt =====
-- The parameters of requests: numericURLParam, parsePositiveInt, isSearchQueryUsable and the paging
-- of ListMessages in messages.go; numericURLParamAllowZero and sanitizeFilename in attachments.go.
use mathlib.Core.Bool.{Bool, false}
use web_mail.Base.{
  ℕ, not, ◌&&◌, ◌||◌, Option, none, some, [], ◌∷◌, Text, text_eq, is_empty, trim_space, keep, ℤ,
  pos, negsuc, ◌+ℤ◌, ◌*ℤ◌, wrap64, leb_ℤ, ltb_ℤ, leb, ◌==◌, if◌then◌else◌,
}
use web_mail.Strconv.{parse_int, format_int}

-- An id is refused, and 404 written, unless it is its own decimal print.
unfoldable pub accept : ℤ → Text → Option ℤ → Option ℤ
accept below value none = none
accept below value (some parsed) =
    if leb_ℤ parsed below || not (text_eq (format_int parsed) value) then none else some parsed

-- `none` stands for http.NotFound.
unfoldable pub numeric_url_param : Text → Option ℤ
unfolding accept
numeric_url_param value = if is_empty value then none else accept (pos 0) value (parse_int value)

unfoldable pub numeric_url_param_allow_zero : Text → Option ℤ
unfolding accept
numeric_url_param_allow_zero value =
    if is_empty value then none else accept (negsuc 0) value (parse_int value)

unfoldable pub positive_or : ℤ → Option ℤ → ℤ
positive_or fallback none = fallback
positive_or fallback (some parsed) = if leb_ℤ parsed (pos 0) then fallback else parsed

unfoldable pub parse_positive_int : Text → ℤ → ℤ
unfolding positive_or
parse_positive_int value fallback = positive_or fallback (parse_int value)

pub record Page : Type 0 where
  pub page : ℤ
  pub per_page : ℤ
  pub offset : ℤ

-- The paging of ListMessages, in 64-bit arithmetic.
unfoldable pub paging : Text → Text → Page
unfolding parse_positive_int ◌+ℤ◌ ◌*ℤ◌ wrap64
paging page_value per_page_value =
    let page = parse_positive_int page_value (pos 1) in
    let asked = parse_positive_int per_page_value (pos 50) in
    let per_page = if ltb_ℤ (pos 100) asked then pos 100 else asked in
    record {
      page = page;
      per_page = per_page;
      offset = wrap64 (wrap64 (page +ℤ negsuc 0) *ℤ per_page);
    }

alphanumeric : ℕ → Bool
alphanumeric c = leb b'a' c && leb c b'z' || leb b'A' c && leb c b'Z' || leb b'0' c && leb c b'9'

some_alphanumeric : Text → Bool
some_alphanumeric [] = false
some_alphanumeric (c ∷ s) = alphanumeric c || some_alphanumeric s

unfoldable pub is_search_query_usable : Text → Bool
unfolding some_alphanumeric alphanumeric
is_search_query_usable q =
    let trimmed = trim_space q in if is_empty trimmed then false else some_alphanumeric trimmed

unfoldable pub is_unsafe : ℕ → Bool
is_unsafe c = c == b'"' || c == 39 || c == 13 || c == 10 || c == b'/' || c == b'\\'

unfoldable pub sanitize_filename : Text → Text
unfolding is_unsafe keep
sanitize_filename filename = trim_space (keep (λ c. not (is_unsafe c)) filename)
