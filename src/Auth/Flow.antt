-- ===== src/Auth/Flow.antt =====
-- The life of a session across handlers: login, later requests, logout.
use web_mail.Base.{
  ◌≡◌, Option, none, some, Text, codes, text_eq, text_eq_iff, text_eq_refl, ℤ, ltb_ℤ, arith, ◌∷◌,
  if◌then◌else◌,
}
use web_mail.Config.{Config}
use web_mail.Session.{Session, Store, find, delete}
use web_mail.Session.Laws.{find-delete}
use web_mail.Http.{Request, Writer, Verdict, answered, pass, cookie}
use web_mail.Auth.{
  session_cookie_name, admit, admit_token, require_auth, logout_handler, delete_cookie,
}

-- The request of a browser that sends a cookie back.
abbrev pub with_cookie : Text → Text → Request → Request
with_cookie name value r = record r { cookies = (name, value) ∷ r.cookies }

-- What RequireAuth does with a request whose token names a session.
abbrev pub judge : ℤ → Session → Request → Verdict
judge now session r =
    if ltb_ℤ session.expires_at now then answered else pass (record r { session = some session })

logout_handler-state :
    (cfg : Option Config) (token : Text) (r : Request) (s : Store) (w : Writer)
    → r.method ≡ codes "POST"
    → cookie (session_cookie_name cfg) r.cookies ≡ some token
    → (logout_handler cfg r s w).0 ≡ delete token s
unfolding logout_handler delete_cookie
logout_handler-state cfg token r s w post sent = ground (arith, text_eq_iff r.method (codes "POST"))

require_auth-deleted :
    (cfg : Option Config) (later : ℤ) (token : Text) (r : Request) (s : Store) (w : Writer)
    → cookie (session_cookie_name cfg) r.cookies ≡ some token
    → (require_auth cfg later r (delete token s) w).verdict ≡ answered
unfolding require_auth admit_token admit
require_auth-deleted cfg later token r s w sent =
    ground (arith, find-delete token token s, text_eq_refl token)

-- After a logout the token of its cookie opens nothing, at any time and for any request, and every
-- other token names what it named before.
pub logout_handler-revokes :
    (cfg : Option Config) (later : ℤ) (token u : Text) (r r' : Request) (s : Store) (w w' : Writer)
    → r.method ≡ codes "POST"
    → cookie (session_cookie_name cfg) r.cookies ≡ some token
    → cookie (session_cookie_name cfg) r'.cookies ≡ some token
    → ((require_auth cfg later r' (logout_handler cfg r s w).0 w').verdict ≡ answered)
      × (find u (logout_handler cfg r s w).0 ≡ (if text_eq token u then none else find u s))
logout_handler-revokes cfg later token u r r' s w w' post sent again =
    rw (logout_handler-state cfg token r s w post sent)
      (require_auth-deleted cfg later token r' s w' again, find-delete token u s)
