-- ===== src/Http.antt =====
-- What the handlers use of net/http: a request with its context values, the response writer, and
-- the shape of handlers and middleware. A response's headers and cookies are fixed by WriteHeader,
-- or by the first Write; later changes do not reach the client.
pub mod Response
use web_mail.Base.{
  String, Bool, Option, none, some, List, [], ◌∷◌, ◌++◌, Text, text_eq, codes, ℤ, ℕ, ◌&&◌, ◌||◌,
  false, ltb, length, take, if◌then◌else◌,
}
use text.Mathlib.Text.{◌==◌}
use web_mail.Session.{Session}

pub record Request : Type 0 where
  pub method : Text
  pub path : Text
  pub headers : List (String × Text)
  pub cookies : List (Text × Text)
  pub remote_addr : Text
  -- -1 if it is not known
  pub content_length : ℤ
  -- the bytes that the client sends, whether the connection breaks after them, and the limit that
  -- http.MaxBytesReader puts on them
  pub body : Text
  pub body_fails : Bool
  pub body_limit : Option ℕ
  -- the values of the request's context
  pub request_id : Option Text
  pub session : Option Session

pub data SameSite : Type 0 where
  default_mode lax strict : SameSite

pub record Cookie : Type 0 where
  pub name : Text
  pub value : Text
  pub http_only : Bool
  pub secure : Bool
  pub same_site : SameSite
  pub path : Text
  pub max_age : ℤ
  pub expires : ℤ

-- The values of the JSON objects that the program writes.
pub data Value : Type 0 where
  literal : String → Value
  string : Text → Value
  bool : Bool → Value
  int : ℤ → Value

pub data Body : Type 0 where
  json : List (String × Value) → Body
  -- an object with plain fields, and with fields that are arrays of plain objects
  json_with : List (String × Value) → List (String × List (List (String × Value))) → Body
  plain : String → Body
  bytes : Text → Body

pub record Head : Type 0 where
  pub status : ℕ
  pub headers : List (String × Text)
  pub cookies : List Cookie

pub record Writer : Type 0 where
  pub headers : List (String × Text)
  pub cookies : List Cookie
  pub sent : Option Head
  -- the status of the last call of WriteHeader, which a wrapper of the writer sees
  pub called : Option ℕ
  pub body : List Body

abbrev pub new_writer : Writer
new_writer = record { headers = []; cookies = []; sent = none; called = none; body = [] }

-- The value of the first header of that name, "" if there is none.
unfoldable pub header_get : String → List (String × Text) → Text
header_get name [] = []
header_get name ((k, v) ∷ rest) = if k == name then v else header_get name rest

-- The first cookie of that name; `none` is http.ErrNoCookie.
unfoldable pub cookie : Text → List (Text × Text) → Option Text
cookie name [] = none
cookie name ((k, v) ∷ rest) = if text_eq k name then some v else cookie name rest

abbrev past_limit : ℕ → Option ℕ → ℕ → Bool
past_limit size none cap = false
past_limit size (some limit) cap = ltb limit size && ltb limit cap

-- io.ReadAll(io.LimitReader(r.Body, cap)): `none` is an error of the connection, or of the
-- MaxBytesReader when a byte past its limit is asked for and there.
unfoldable pub read_body : ℕ → Request → Option Text
read_body cap r =
    if past_limit (length r.body) r.body_limit cap || r.body_fails && ltb (length r.body) cap
    then none
    else some (take cap r.body)

-- Header().Set: the new value stands in front, where `header_get` finds it.
abbrev pub set_header : String → Text → Writer → Writer
set_header name value w = record w { headers = (name, value) ∷ w.headers }

abbrev pub set_cookie : Cookie → Writer → Writer
set_cookie c w = record w { cookies = w.cookies ++ c ∷ [] }

abbrev pub head_of : ℕ → Writer → Option Head → Option Head
head_of status w none = some (record { status = status; headers = w.headers; cookies = w.cookies })
head_of status w (some h) = some h

-- Only the first call counts for the client.
abbrev pub write_header : ℕ → Writer → Writer
write_header status w = record w { sent = head_of status w w.sent; called = some status }

-- A write with no WriteHeader before it sends status 200.
abbrev pub write : Body → Writer → Writer
write b w = record w { sent = head_of 200 w w.sent; body = w.body ++ b ∷ [] }

-- The status that a wrapper of the writer has, which sees the calls of WriteHeader but not that of a
-- Write, and begins with 200.
abbrev pub recorded_status : Option ℕ → ℕ
recorded_status none = 200
recorded_status (some code) = code

-- writeJSON of internal/auth, internal/api and internal/ingest
unfoldable pub write_json : ℕ → List (String × Value) → Writer → Writer
write_json status payload w =
    write (json payload)
      (write_header status (set_header "Content-Type" (codes "application/json") w))

abbrev pub write_error : ℕ → String → Writer → Writer
write_error status message = write_json status (("error", literal message) ∷ [])

-- http.Error
unfoldable pub http_error : ℕ → String → Writer → Writer
http_error status message w = write (plain message) (
    write_header status (
      set_header "X-Content-Type-Options" (codes "nosniff")
        (set_header "Content-Type" (codes "text/plain; charset=utf-8") w)))

abbrev pub not_found : Writer → Writer
not_found = http_error 404 "404 page not found"

-- What a middleware did: it wrote the response itself, or called the next handler with a request.
pub data Verdict : Type 0 where
  answered : Verdict
  pass : Request → Verdict

pub record Outcome (S : Type 0) : Type 0 where
  pub state : S
  pub writer : Writer
  pub verdict : Verdict

-- A middleware over the state `S` that it may change, and a handler.
abbrev pub Middleware : Type 0 → Type 0
Middleware S = Request → S → Writer → Outcome S

abbrev pub Handler : Type 0 → Type 0
Handler S = Request → S → Writer → S × Writer

abbrev pub status_of : Writer → Option ℕ
status_of w = elim w.sent [ none ↦ none | some h ↦ some h.status ]
