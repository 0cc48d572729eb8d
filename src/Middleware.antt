-- ===== src/Middleware.antt =====
-- internal/middleware: requestid.go, security.go, cors.go, maxbody.go and logging.go; the rate limiter
-- is in a child module. A line of the access log is without the duration.
pub mod RateLimit
pub mod Responses
pub mod Laws
use Prim.Native.Nat.{bit_and, bit_or, min}
use web_mail.Base.{
  ℕ, zero, suc, String, Bool, not, ◌&&◌, Option, none, some, List, [], ◌∷◌, ◌++◌, Text, codes,
  text_eq, is_empty, take, drop, ℤ, pos, pos_part, leb_ℤ, ltb_ℤ, if◌then◌else◌,
}
use web_mail.Session.{hex_encode}
use web_mail.Http.{
  Request, Writer, Handler, Middleware, Outcome, recorded_status, answered, pass, plain, header_get,
  set_header, write_header, write,
}

-- b[i] = f(b[i])
update : ℕ → (ℕ → ℕ) → List ℕ → List ℕ
update i f [] = []
update zero f (b ∷ bs) = f b ∷ bs
update (suc i) f (b ∷ bs) = b ∷ update i f bs

set_version : ℕ → ℕ
set_version b = bit_or (bit_and b 0x0f) 0x40

set_variant : ℕ → ℕ
set_variant b = bit_or (bit_and b 0x3f) 0x80

-- s[i:j]
abbrev slice : ℕ → ℕ → Text → Text
slice i j s = drop i (take j s)

-- The argument is what rand.Read left in the 16 bytes.
unfoldable pub generate_uuid_v4 : List ℕ → Text
unfolding update set_version set_variant
generate_uuid_v4 random =
    let s = hex_encode (update 8 set_variant (update 6 set_version random)) in
    slice 0 8 s
    ++ b'-'
      ∷ (slice 8 12 s ++ b'-' ∷ (slice 12 16 s ++ b'-' ∷ (slice 16 20 s ++ b'-' ∷ slice 20 32 s)))

unfoldable pub request_id_of : List ℕ → Text → Text
request_id_of random given = if is_empty given then generate_uuid_v4 random else given

unfoldable pub request_id : {S : Type 0} → String → List ℕ → Middleware S
unfolding request_id_of header_get
request_id header_name random r s w =
    let id = request_id_of random (header_get header_name r.headers) in
    record {
      state = s;
      writer = set_header "X-Request-ID" id w;
      verdict = pass (record r { request_id = some id });
    }

-- GetRequestIDFromContext
unfoldable pub request_id_from_context : Option Text → Text
request_id_from_context none = []
request_id_from_context (some id) = id

abbrev strict_transport_security : String
strict_transport_security = "max-age=63072000; includeSubDomains; preload"

abbrev content_security_policy : String
content_security_policy =
    "default-src 'self'; script-src 'self'; style-src 'self' 'unsafe-inline'; img-src 'self' data:; frame-src 'self'"

-- The headers that SecurityHeaders sets.
abbrev pub security : List (String × Text)
security =
    ("X-Frame-Options", codes "DENY")
    ∷ ("Content-Security-Policy", codes content_security_policy)
    ∷ ("Referrer-Policy", codes "no-referrer")
    ∷ ("X-Content-Type-Options", codes "nosniff")
    ∷ ("Strict-Transport-Security", codes strict_transport_security)
    ∷ []

-- The headers of every response, with the id of its request.
abbrev pub framed : Text → List (String × Text)
framed request = ("X-Request-ID", request) ∷ security

unfoldable pub security_headers : {S : Type 0} → Middleware S
security_headers r s w = record {
  state = s;
  writer = set_header "X-Frame-Options" (codes "DENY") (
      set_header "Content-Security-Policy" (codes content_security_policy) (
        set_header "Referrer-Policy" (codes "no-referrer") (
          set_header "X-Content-Type-Options" (codes "nosniff")
            (set_header "Strict-Transport-Security" (codes strict_transport_security) w))));
  verdict = pass r;
}

abbrev pub allow_origin : Text → Writer → Writer
allow_origin allowed w = set_header "Access-Control-Max-Age" (codes "300") (
    set_header "Access-Control-Allow-Headers"
      (codes "Content-Type, Authorization, X-Lite-Mail-Ingest-PSK")
      (set_header "Access-Control-Allow-Methods" (codes "GET, POST, OPTIONS")
        (set_header "Vary" (codes "Origin") (set_header "Access-Control-Allow-Origin" allowed w))))

unfoldable pub cors : {S : Type 0} → Text → Middleware S
unfolding header_get
cors allowed_origin r s w =
    let origin = header_get "Origin" r.headers in
    let w' =
      if not (is_empty origin) && text_eq origin allowed_origin
      then allow_origin allowed_origin w
      else w in
    if text_eq r.method (codes "OPTIONS")
    then record { state = s; writer = write_header 204 w'; verdict = answered }
    else record { state = s; writer = w'; verdict = pass r }

abbrev pub tighten : ℕ → Option ℕ → ℕ
tighten n none = n
tighten n (some m) = min n m

abbrev pub effective_limit : ℤ → ℤ
effective_limit max_bytes = if leb_ℤ max_bytes (pos 0) then pos 1048576 else max_bytes

unfoldable pub max_body_size : {S : Type 0} → ℤ → Middleware S
max_body_size max_bytes r s w =
    let limit = effective_limit max_bytes in
    if ltb_ℤ limit r.content_length
    then record {
      state = s;
      writer =
          write (plain "{\"error\":\"request body too large\"}")
            (write_header 413 (set_header "Content-Type" (codes "application/json") w));
      verdict = answered;
    }
    else record {
      state = s;
      writer = w;
      verdict = pass (record r { body_limit = some (tighten (pos_part limit) r.body_limit) });
    }

-- What RequestLogging writes about a request.
pub record LogLine : Type 0 where
  pub method : Text
  pub path : Text
  pub status : ℕ
  pub remote_addr : Text

-- RequestLogging, with the lines as a part of the state. Its recorder has seen no call of WriteHeader
-- when the next handler begins.
unfoldable pub request_logging :
    {S : Type 0} → Handler S → Request → S → Writer → S × Writer × LogLine
request_logging next r s w =
    let (s', w') = next r s (record w { called = none }) in
    let line : LogLine = record {
      method = r.method;
      path = r.path;
      status = recorded_status w'.called;
      remote_addr = r.remote_addr;
    } in
    (s', w', line)
