-- ===== src/Middleware/Laws.antt =====
-- What the size limit and the CORS rule guarantee to the handlers behind them and to browsers.
use Prim.Native.Nat.{zero, suc}
use web_mail.Base.{
  ℕ, ◌≤◌, ◌≡◌, ◌≢◌, some, List, [], ◌∷◌, Text, text_eq_iff, arith, length, take, ℤ, pos_part, ◌≤ℤ◌,
}
use web_mail.Http.{Request, Writer, pass, header_get, read_body}
use web_mail.Middleware.{max_body_size, effective_limit, tighten, cors}

length-take-le : {A : Type 0} (n : ℕ) (xs : List A) → length (take n xs) ≤ n
length-take-le zero xs = omega arith
length-take-le (suc n) [] = omega arith
length-take-le (suc n) (x ∷ xs) = omega (arith, length-take-le n xs)

length-take_all : {A : Type 0} (n : ℕ) (xs : List A) → length (take n xs) ≤ length xs
length-take_all zero xs = omega arith
length-take_all (suc n) [] = omega arith
length-take_all (suc n) (x ∷ xs) = omega (arith, length-take_all n xs)

read_body-le :
    (cap limit : ℕ) (r : Request) (b : Text)
    → r.body_limit ≡ some limit
    → read_body cap r ≡ some b
    → length b ≤ limit
unfolding read_body
read_body-le cap limit r b e h =
    ground (arith, length-take-le cap r.body, length-take_all cap r.body)

-- A request that is passed on declares no length past the limit, and no handler behind it reads
-- more bytes than the limit from its body, whatever length it declared.
pub max_body_size-bounds :
    {S : Type 0} (max_bytes : ℤ) (cap : ℕ) (b : Text) (r r' : Request) (s : S) (w : Writer)
    → (max_body_size max_bytes r s w).verdict ≡ pass r'
    → read_body cap r' ≡ some b
    → (r.content_length ≤ℤ effective_limit max_bytes)
      × (length b ≤ pos_part (effective_limit max_bytes))
unfolding max_body_size
max_body_size-bounds max_bytes cap b r r' s w e h =
    let limit = pos_part (effective_limit max_bytes) in
    let bounded : r'.body_limit ≡ some (tighten limit r.body_limit) = ground arith in
    let size = read_body-le cap (tighten limit r.body_limit) r' b bounded h in
    (ground arith, ground (arith, size))

-- A response allows an origin only if that is the configured one and the request came from it.
pub cors-origin :
    {S : Type 0} (allowed : Text) (r : Request) (s : S) (w : Writer)
    → header_get "Access-Control-Allow-Origin" w.headers ≡ []
    → header_get "Access-Control-Allow-Origin" (cors allowed r s w).writer.headers ≢ []
    → (header_get "Access-Control-Allow-Origin" (cors allowed r s w).writer.headers ≡ allowed)
      × (header_get "Origin" r.headers ≡ allowed)
unfolding cors header_get
cors-origin allowed r s w clean some_origin =
    ground (arith, text_eq_iff (header_get "Origin" r.headers) allowed)
