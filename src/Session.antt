-- ===== src/Session.antt =====
-- internal/auth/session.go: sessions and the in-memory store. Each method holds the store's lock
-- from its first to its last access of the map, so it is one step. Sessions are values here; the
-- child module Sharing has the pointers and cloneSession. An instant is a count of nanoseconds.
pub mod Laws
pub mod Sharing
pub mod Separation
pub mod Refinement
use web_mail.Base.{
  ℕ, ◌+◌, ◌/◌, ◌%◌, List, [], ◌∷◌, Option, none, some, Bool, Text, is_empty, ℤ, ltb, if◌then◌else◌,
}
use web_mail.Base.Assoc.{get, put, remove}

pub record Session : Type 0 where
  pub email : Text
  pub is_admin : Bool
  pub expires_at : ℤ
  pub token : Text

pub record Store : Type 0 where
  pub sessions : List (Text × Session)

-- NewCookieSessionStore, its map
abbrev pub new_store : Store
new_store = record { sessions = [] }

hex_digit : ℕ → ℕ
hex_digit n = if ltb n 10 then b'0' + n else 87 + n

-- hex.EncodeToString
unfoldable pub hex_encode : List ℕ → Text
unfolding hex_digit
hex_encode [] = []
hex_encode (b ∷ bs) = hex_digit (b / 16) ∷ hex_digit (b % 16) ∷ hex_encode bs

-- The argument is what rand.Read put into the 32 bytes; `none` is its error.
unfoldable pub generate_token : Option (List ℕ) → Option Text
unfolding hex_encode
generate_token none = none
generate_token (some b) = some (hex_encode b)

-- session.Token, drawn if it is empty
abbrev pub token_for : Option (List ℕ) → Session → Option Text
token_for random session =
    if is_empty session.token then generate_token random else some session.token

abbrev insert_as : Session → Store → Option Text → Option (Session × Store)
insert_as session s none = none
insert_as session s (some token) =
    let named = record session { token = token } in
    some (named, record { sessions = put token named s.sessions })

-- Returns the session with its token, and the new store; `none` is an error of the random source.
unfoldable pub create : Option (List ℕ) → Session → Store → Option (Session × Store)
unfolding generate_token
create random session s = insert_as session s (token_for random session)

-- `none` is ErrSessionNotFound.
unfoldable pub find : Text → Store → Option Session
find token s = if is_empty token then none else get token s.sessions

unfoldable pub delete : Text → Store → Store
delete token s = record { sessions = remove token s.sessions }
