-- ===== src/Server.antt =====
-- internal/server/server.go and handlers.go: the configuration that New completes, and the router
-- with the middleware of each route. How chi finds the route of a request is a parameter, and so is
-- what it answers without a handler of the program and the files under /static/.
pub mod Access
pub mod Delivery
pub mod Limited
pub mod Changes
pub mod Attempts
pub mod Invariant
pub mod Sessions
pub mod History
pub mod Quiet
pub mod Responses
use web_mail.Base.{
  ℕ, String, true, Option, none, some, List, [], ◌∷◌, Text, codes, is_empty, ℤ, pos, leb_ℤ,
  if◌then◌else◌,
}
use web_mail.Config.{Config}
use web_mail.Session.{Store, new_store}
use web_mail.Auth.{LoginRequest, login_handler, logout_handler, require_auth}
use web_mail.Http.{
  Request, Writer, Handler, Middleware, Outcome, Verdict, answered, pass, plain, bytes, http_error,
  set_header, write_header, write,
}
use web_mail.Middleware.{
  LogLine, request_logging, request_id, security_headers, cors, max_body_size,
}
use web_mail.Middleware.RateLimit.{Float64, Limiter, new_rate_limiter, effective_rate, rate_limit}
use web_mail.Storage.{Disk, FilePath}
use web_mail.Ingest.Database.{Database}
use web_mail.Ingest.Persist.{Faults}
use web_mail.Ingest.Handler.{Parsing, State, serve_http}
use web_mail.Api.Sql.{Sql}
use web_mail.Api.Messages.{Deps, list_messages, get_message, get_raw_mime}
use web_mail.Api.Attachments.{get_attachment}

-- The defaults of New; a nil configuration counts as the zero one.
unfoldable pub complete : Config → Config
complete cfg = record cfg {
  data_dir = if is_empty cfg.data_dir then codes "./data" else cfg.data_dir;
  session_cookie_name =
      if is_empty cfg.session_cookie_name
      then codes "lite_mail_session"
      else cfg.session_cookie_name;
  session_ttl_hours = if leb_ℤ cfg.session_ttl_hours (pos 0) then pos 24 else cfg.session_ttl_hours;
}

abbrev pub rate_limit_login : ℤ
rate_limit_login = pos 10

abbrev pub rate_limit_ingest : ℤ
rate_limit_ingest = pos 60

abbrev pub max_body_bytes : ℤ
max_body_bytes = pos 1048576

-- The state that requests share: the sessions, the two limiters, the database and files, and the
-- lines of the access log with the last one first.
pub record App : Type 0 where
  pub sessions : Store
  pub login_limiter : Limiter
  pub ingest_limiter : Limiter
  pub mail : State
  pub log : List LogLine

unfoldable pub new : State → App
new mail = record {
  sessions = new_store;
  login_limiter = new_rate_limiter (effective_rate rate_limit_login);
  ingest_limiter = new_rate_limiter (effective_rate rate_limit_ingest);
  mail = mail;
  log = [];
}

-- Where chi sends a request, with what it takes from the URL. `beside_ingest` and `beside_login`
-- are requests below those paths that no handler is for; they pass the middleware all the same.
pub data Route : Type 0 where
  healthz ingest login logout beside_ingest beside_login spa elsewhere : Route
  messages : (String → Text) → Route
  message raw : Text → Route
  attachment : Text → Text → Route

-- What the environment gives to one request.
pub record Env : Type 1 where
  pub config : Config
  pub table : ℕ → ℕ
  pub float64 : Float64
  -- the wall clock, and that of the rate limiters; both in nanoseconds
  pub now : ℤ
  pub instant : ℕ
  pub random_id : List ℕ
  pub random_token : Option (List ℕ)
  pub decoded : Option LoginRequest
  pub parsing : Parsing
  pub faults : Faults
  pub disk : Disk
  pub base : FilePath
  pub sql : Database → Sql
  pub index_html : Option Text
  pub route : Request → Route
  -- what chi and the file server answer
  pub foreign : Request → Writer → Writer

-- A middleware or a handler over a part of the state.
abbrev on_sessions : Middleware Store → Middleware App
on_sessions m r a w =
    let o = m r a.sessions w in
    record { state = record a { sessions = o.state }; writer = o.writer; verdict = o.verdict }

abbrev on_login : Middleware Limiter → Middleware App
on_login m r a w =
    let o = m r a.login_limiter w in
    record { state = record a { login_limiter = o.state }; writer = o.writer; verdict = o.verdict }

abbrev on_ingest : Middleware Limiter → Middleware App
on_ingest m r a w =
    let o = m r a.ingest_limiter w in
    record { state = record a { ingest_limiter = o.state }; writer = o.writer; verdict = o.verdict }

abbrev with_sessions : Handler Store → Handler App
with_sessions h r a w = let (s, w') = h r a.sessions w in (record a { sessions = s }, w')

abbrev with_mail : Handler State → Handler App
with_mail h r a w = let (mail, w') = h r a.mail w in (record a { mail = mail }, w')

-- A middleware in front of a handler.
unfoldable pub after : Outcome App → Handler App → App × Writer
after o next = elim o.verdict [ answered ↦ (o.state, o.writer) | pass r ↦ next r o.state o.writer ]

abbrev wrap : Middleware App → Handler App → Handler App
wrap m next r a w = after (m r a w) next

-- The access log in front of a handler.
unfoldable pub logged : Handler App → Handler App
unfolding request_logging
logged next r a w =
    let (a', w', line) = request_logging next r a w in (record a' { log = line ∷ a'.log }, w')

unfoldable pub health_handler : Writer → Writer
health_handler w =
    write (plain "{\"status\":\"ok\"}")
      (write_header 200 (set_header "Content-Type" (codes "application/json") w))

unfoldable pub spa_handler : Option Text → Writer → Writer
spa_handler none w = http_error 404 "not found" w
spa_handler (some data_) w =
    write (bytes data_) (set_header "Content-Type" (codes "text/html; charset=utf-8") w)

module _ (env : Env) where
  abbrev deps : App → Deps
  deps a = record {
    db = env.sql a.mail.database;
    disk = env.disk;
    base = env.base;
    fs = a.mail.files;
  }

  abbrev guard : Handler App → Handler App
  guard = wrap (on_sessions (require_auth (some env.config) env.now))

  abbrev limited_ingest : Handler App → Handler App
  limited_ingest next =
      wrap (on_ingest (rate_limit env.float64 env.instant))
        (wrap (max_body_size env.config.max_message_bytes) next)

  abbrev limited_login : Handler App → Handler App
  limited_login next =
      wrap (on_login (rate_limit env.float64 env.instant))
        (wrap (max_body_size max_body_bytes) next)

  abbrev ingest_handler : Handler App
  ingest_handler =
      with_mail (serve_http env.parsing env.faults env.disk env.base env.now true (some env.config))

  abbrev foreign_handler : Handler App
  foreign_handler r a w = (a, env.foreign r w)

  -- The routes of New.
  unfoldable pub handle : Route → Handler App
  unfolding after health_handler spa_handler
  handle healthz r a w = (a, health_handler w)
  handle ingest r a w = limited_ingest ingest_handler r a w
  handle beside_ingest r a w = limited_ingest foreign_handler r a w
  handle login r a w =
      limited_login
        (with_sessions
          (login_handler env.table (some env.config) env.now env.random_token env.decoded))
        r a w
  handle beside_login r a w = limited_login foreign_handler r a w
  handle logout r a w = with_sessions (logout_handler (some env.config)) r a w
  handle (messages param) r a w =
      guard (λ r' a' w'. (a', list_messages (deps a') param r' w')) r a w
  handle (message id) r a w = guard (λ r' a' w'. (a', get_message (deps a') id r' w')) r a w
  handle (raw id) r a w = guard (λ r' a' w'. (a', get_raw_mime (deps a') id r' w')) r a w
  handle (attachment id idx) r a w =
      guard (λ r' a' w'. (a', get_attachment (deps a') id idx r' w')) r a w
  handle spa r a w = (a, spa_handler env.index_html w)
  handle elsewhere r a w = (a, env.foreign r w)

  -- What is behind the middlewares of the whole router.
  unfoldable pub dispatch : Handler App
  unfolding handle
  dispatch r a w = handle (env.route r) r a w

  -- The whole router.
  unfoldable pub serve : Handler App
  unfolding dispatch logged
  serve =
      wrap (request_id "X-Request-ID" env.random_id)
        (wrap security_headers (logged (wrap (cors env.config.public_base_url) dispatch)))
