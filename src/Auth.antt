-- ===== src/Auth.antt =====
-- internal/auth: the cookies of session.go, handler.go and middleware.go. `cfg` is the pointer to
-- the configuration, `none` if it is nil. Log lines and the client address that only they use are
-- left out.
pub mod Access
pub mod Login
pub mod Flow
pub mod History
pub mod Origin
pub mod Lifetime
pub mod Responses
use web_mail.Base.{
  String, ℕ, Bool, true, false, not, ◌&&◌, ◌||◌, Option, none, some, List, [], ◌∷◌, Text, codes,
  text_eq, is_empty, trim_space, to_lower, ℤ, pos, negsuc, ◌+ℤ◌, ◌*ℤ◌, ◌*◌, wrap64, ltb_ℤ, leb_ℤ,
  if◌then◌else◌,
}
use web_mail.Config.{Config, hour}
use web_mail.Config
use web_mail.Session.{Session, Store, create, find, delete}
use web_mail.Http.{
  Request, Cookie, lax, Writer, Value, literal, string, bool, Handler, Middleware, Outcome,
  answered, pass, cookie, set_cookie, write_json, write_error,
}

abbrev default_cookie_name : Text
default_cookie_name = codes "lite_mail_session"

unfoldable pub session_cookie_name : Option Config → Text
session_cookie_name none = default_cookie_name
session_cookie_name (some c) =
    if is_empty c.session_cookie_name then default_cookie_name else c.session_cookie_name

-- An int, so the product wraps around.
unfoldable pub session_max_age : Option Config → ℤ
unfolding ◌*ℤ◌ wrap64
session_max_age none = pos 86400
session_max_age (some c) =
    if leb_ℤ c.session_ttl_hours (pos 0)
    then pos 86400
    else wrap64 (c.session_ttl_hours *ℤ pos 3600)

is_secure : Option Config → Bool
is_secure none = true
is_secure (some c) = not (text_eq c.app_env (codes "development"))

unfoldable pub new_session_cookie : Option Config → Text → ℤ → Cookie
unfolding session_cookie_name is_secure session_max_age
new_session_cookie cfg token expires_at = record {
  name = session_cookie_name cfg;
  value = token;
  http_only = true;
  secure = is_secure cfg;
  same_site = lax;
  path = codes "/";
  max_age = session_max_age cfg;
  expires = expires_at;
}

unfoldable pub expired_session_cookie : Option Config → Cookie
unfolding session_cookie_name is_secure
expired_session_cookie cfg = record {
  name = session_cookie_name cfg;
  value = [];
  http_only = true;
  secure = is_secure cfg;
  same_site = lax;
  path = codes "/";
  max_age = negsuc 0;
  expires = pos 0;
}

unfoldable pub session_ttl : Option Config → ℤ
session_ttl none = pos (24 * hour)
session_ttl (some c) =
    if leb_ℤ c.session_ttl_hours (pos 0) then pos (24 * hour) else Config.session_ttl c

pub record LoginRequest : Type 0 where
  pub psk : Text
  pub email : Text

-- subtle.ConstantTimeCompare of the bytes of two texts
unfoldable pub constant_time_compare : Text → Text → Bool
constant_time_compare = text_eq

-- What the switch of LoginHandler finds.
pub data Credentials : Type 0 where
  as_admin : Credentials
  as_user : Text → Credentials
  refused : Credentials

-- `table` is Go's Unicode table of lower-case letters.
unfoldable pub check_psk : (ℕ → ℕ) → Config → LoginRequest → Credentials
unfolding constant_time_compare
check_psk table cfg req =
    if not (is_empty cfg.admin_psk) && constant_time_compare req.psk cfg.admin_psk
    then as_admin
    else if not (is_empty cfg.normal_user_psk) && constant_time_compare req.psk cfg.normal_user_psk
    then (let email : Text = to_lower table (trim_space req.email) in
        if is_empty email then refused else as_user email)
    else refused

abbrev empty_session : Session
empty_session = record { email = []; is_admin = false; expires_at = pos 0; token = [] }

-- The object that LoginHandler writes.
abbrev login_response : Session → List (String × Value)
login_response named =
    ("status", literal "ok")
    ∷ ("is_admin", bool named.is_admin)
    ∷ ("email", string named.email)
    ∷ []

-- From `session.ExpiresAt = …` to the end of LoginHandler.
finish_login :
    Option Config → ℤ → Session → Option (Session × Store) → Store → Writer → Store × Writer
unfolding write_json new_session_cookie
finish_login cfg now session none s w = (s, write_error 500 "failed to create session" w)
finish_login cfg now session (some (named, s')) s w = (
  s',
  write_json 200 (login_response named)
      (set_cookie (new_session_cookie cfg named.token named.expires_at) w),
)

start_session : Option Config → ℤ → Option (List ℕ) → Session → Store → Writer → Store × Writer
unfolding finish_login create session_ttl ◌+ℤ◌
start_session cfg now random session s w =
    let dated = record session { expires_at = now +ℤ session_ttl cfg } in
    finish_login cfg now dated (create random dated s) s w

login_as : Option Config → ℤ → Option (List ℕ) → Credentials → Store → Writer → Store × Writer
unfolding start_session
login_as cfg now random as_admin s w =
    start_session cfg now random (record empty_session { email = codes "admin"; is_admin = true }) s
      w
login_as cfg now random (as_user email) s w =
    start_session cfg now random (record empty_session { email = email }) s w
login_as cfg now random refused s w = (s, write_error 401 "invalid credentials" w)

-- A nil configuration counts as the zero one.
abbrev zero_config : Config
zero_config = record {
  database_url = [];
  data_dir = [];
  public_base_url = [];
  max_message_bytes = pos 0;
  session_cookie_name = [];
  session_ttl_hours = pos 0;
  normal_user_psk = [];
  admin_psk = [];
  worker_ingest_psk = [];
  server_addr = [];
  app_env = [];
}

abbrev pub config_or_zero : Option Config → Config
config_or_zero none = zero_config
config_or_zero (some c) = c

login_with :
    (ℕ → ℕ) → Config → ℤ → Option (List ℕ) → Option LoginRequest → Store → Writer → Store × Writer
unfolding check_psk login_as
login_with table cfg now random none s w = (s, write_error 400 "invalid json" w)
login_with table cfg now random (some req) s w =
    login_as (some cfg) now random (check_psk table cfg req) s w

-- LoginHandler. `decoded` is what json.Decoder.Decode makes of the body, `now` the clock, `random`
-- what the random source would give.
unfoldable pub login_handler :
    (ℕ → ℕ) → Option Config → ℤ → Option (List ℕ) → Option LoginRequest → Handler Store
unfolding login_with
login_handler table cfg now random decoded r s w =
    if text_eq r.method (codes "POST")
    then login_with table (config_or_zero cfg) now random decoded s w
    else (s, write_error 405 "method not allowed" w)

delete_cookie : Option Text → Store → Store
unfolding delete
delete_cookie none s = s
delete_cookie (some token) s = delete token s

unfoldable pub logout_handler : Option Config → Handler Store
unfolding delete_cookie cookie session_cookie_name expired_session_cookie write_json
logout_handler cfg r s w =
    if text_eq r.method (codes "POST")
    then (
      delete_cookie (cookie (session_cookie_name cfg) r.cookies) s,
      write_json 200 (("status", literal "ok") ∷ []) (set_cookie (expired_session_cookie cfg) w),
    )
    else (s, write_error 405 "method not allowed" w)

-- The values of a request's context that hold its session.
abbrev with_session : Session → Request → Request
with_session session r = record r { session = some session }

abbrev pub session_from_context : Request → Option Session
session_from_context r = r.session

abbrev unauthorized : Store → Writer → Outcome Store
unauthorized s w = record {
  state = s;
  writer = write_error 401 "authentication required" w;
  verdict = answered;
}

-- The part of RequireAuth behind sessionStore.Get.
admit : Option Config → ℤ → Option Session → Middleware Store
unfolding delete expired_session_cookie write_json
admit cfg now none r s w = unauthorized s w
admit cfg now (some session) r s w =
    if ltb_ℤ session.expires_at now
    then unauthorized (delete session.token s) (set_cookie (expired_session_cookie cfg) w)
    else record { state = s; writer = w; verdict = pass (with_session session r) }

admit_token : Option Config → ℤ → Option Text → Middleware Store
unfolding admit find
admit_token cfg now none r s w = unauthorized s w
admit_token cfg now (some token) r s w = admit cfg now (find token s) r s w

unfoldable pub require_auth : Option Config → ℤ → Middleware Store
unfolding admit_token cookie session_cookie_name
require_auth cfg now r s w = admit_token cfg now (cookie (session_cookie_name cfg) r.cookies) r s w

is_admin_session : Option Session → Bool
is_admin_session none = false
is_admin_session (some session) = session.is_admin

unfoldable pub require_admin : {S : Type 0} → Middleware S
unfolding is_admin_session write_json
require_admin r s w =
    if is_admin_session (session_from_context r)
    then record { state = s; writer = w; verdict = pass r }
    else record {
      state = s;
      writer = write_error 403 "admin access required" w;
      verdict = answered;
    }

unfoldable pub can_access_email : Option Session → Text → Bool
can_access_email none email = false
can_access_email (some session) email = session.is_admin || text_eq session.email email
