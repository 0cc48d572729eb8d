-- ===== src/Auth/Responses.antt =====
-- How the handlers of internal/auth answer.
use web_mail.Base.{ℕ, ◌≡◌, true, ◌+ℤ◌, List, Option, none, some, Text, codes, text_eq, ℤ, ltb_ℤ}
use web_mail.Config.{Config}
use web_mail.Session.{Session, Store, find, create}
use web_mail.Http.{Request, Writer, cookie}
use web_mail.Http.Response.{Responds, here, with_cookie, IsPolite, if-Responds, if-IsPolite}
use web_mail.Middleware.{framed}
use web_mail.Middleware.Responses.{write_json-Responds}
use web_mail.Auth.{
  LoginRequest, Credentials, as_admin, as_user, refused, check_psk, finish_login, start_session,
  login_as, login_with, config_or_zero, login_handler, logout_handler, admit, admit_token,
  require_auth, session_cookie_name, session_ttl, empty_session,
}

module _ {request : Text} (w : Writer) (fresh : w.sent ≡ none) where
  finish_login-Responds :
      (cfg : Option Config) (now : ℤ) (session : Session) (made : Option (Session × Store))
      (s : Store)
      → Responds (framed request) w (finish_login cfg now session made s w).1
  unfolding finish_login
  finish_login-Responds cfg now session none s = write_json-Responds 500 _ fresh here
  finish_login-Responds cfg now session (some (named, s')) s =
      write_json-Responds 200 _ fresh (with_cookie _ here)

  start_session-Responds :
      (cfg : Option Config) (now : ℤ) (random : Option (List ℕ)) (session : Session) (s : Store)
      → Responds (framed request) w (start_session cfg now random session s w).1
  unfolding start_session
  start_session-Responds cfg now random session s =
      let dated = record session { expires_at = now +ℤ session_ttl cfg } in
      finish_login-Responds cfg now dated (create random dated s) s

  login_as-Responds :
      (cfg : Option Config) (now : ℤ) (random : Option (List ℕ)) (c : Credentials) (s : Store)
      → Responds (framed request) w (login_as cfg now random c s w).1
  unfolding login_as
  login_as-Responds cfg now random as_admin s =
      start_session-Responds cfg now random
        (record empty_session { email = codes "admin"; is_admin = true }) s
  login_as-Responds cfg now random (as_user email) s =
      start_session-Responds cfg now random (record empty_session { email = email }) s
  login_as-Responds cfg now random refused s = write_json-Responds 401 _ fresh here

  login_with-Responds :
      (table : ℕ → ℕ) (cfg : Config) (now : ℤ) (random : Option (List ℕ))
      (decoded : Option LoginRequest) (s : Store)
      → Responds (framed request) w (login_with table cfg now random decoded s w).1
  unfolding login_with
  login_with-Responds table cfg now random none s = write_json-Responds 400 _ fresh here
  login_with-Responds table cfg now random (some req) s =
      login_as-Responds (some cfg) now random (check_psk table cfg req) s

  pub login_handler-Responds :
      (table : ℕ → ℕ) (cfg : Option Config) (now : ℤ) (random : Option (List ℕ))
      (decoded : Option LoginRequest) (r : Request) (s : Store)
      → Responds (framed request) w (login_handler table cfg now random decoded r s w).1
  unfolding login_handler
  login_handler-Responds table cfg now random decoded r s =
      if-Responds (text_eq r.method (codes "POST")) _ _
        (login_with-Responds table (config_or_zero cfg) now random decoded s)
        (write_json-Responds 405 _ fresh here)

  pub logout_handler-Responds :
      (cfg : Option Config) (r : Request) (s : Store)
      → Responds (framed request) w (logout_handler cfg r s w).1
  unfolding logout_handler
  logout_handler-Responds cfg r s =
      if-Responds (text_eq r.method (codes "POST")) _ _
        (write_json-Responds 200 _ fresh (with_cookie _ here))
        (write_json-Responds 405 _ fresh here)

  admit-IsPolite :
      (cfg : Option Config) (now : ℤ) (found : Option Session) (r : Request) (s : Store)
      → IsPolite (framed request) w (admit cfg now found r s w)
  unfolding admit
  admit-IsPolite cfg now none r s = record {
    responds = write_json-Responds 401 _ fresh here;
    unsent = λ r' e. cc;
  }
  admit-IsPolite cfg now (some session) r s =
      if-IsPolite (ltb_ℤ session.expires_at now) _ _
        (record {
          responds = write_json-Responds 401 _ fresh (with_cookie _ here);
          unsent = λ r' e. cc;
        })
        (record { responds = here; unsent = λ r' e. fresh })

  admit_token-IsPolite :
      (cfg : Option Config) (now : ℤ) (token : Option Text) (r : Request) (s : Store)
      → IsPolite (framed request) w (admit_token cfg now token r s w)
  unfolding admit_token
  admit_token-IsPolite cfg now none r s = record {
    responds = write_json-Responds 401 _ fresh here;
    unsent = λ r' e. cc;
  }
  admit_token-IsPolite cfg now (some token) r s = admit-IsPolite cfg now (find token s) r s

  pub require_auth-IsPolite :
      (cfg : Option Config) (now : ℤ) (r : Request) (s : Store)
      → IsPolite (framed request) w (require_auth cfg now r s w)
  unfolding require_auth
  require_auth-IsPolite cfg now r s =
      admit_token-IsPolite cfg now (cookie (session_cookie_name cfg) r.cookies) r s
