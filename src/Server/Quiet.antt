-- ===== src/Server/Quiet.antt =====
-- The handlers of the router keep the headers that every response has, and the access log.
use web_mail.Base.{arith, ◌≡◌, refl, ◌∙◌, Option, none, some, Text, codes, text_eq, ℤ}
use web_mail.Http.{Request, Writer, Handler, Middleware}
use web_mail.Http.Response.{Responds, here, header, set_status, content, trans, IsPolite}
use web_mail.Auth.{login_handler, require_auth}
use web_mail.Auth.Responses.{login_handler-Responds, logout_handler-Responds, require_auth-IsPolite}
use web_mail.Middleware.{framed, cors, max_body_size}
use web_mail.Middleware.Responses.{
  http_error-Responds, cors-IsPolite, max_body_size-IsPolite, rate_limit-IsPolite,
}
use web_mail.Middleware.RateLimit.{rate_limit}
use web_mail.Ingest.Responses.{serve_http-Responds}
use web_mail.Api.Messages.{list_messages, get_message, get_raw_mime}
use web_mail.Api.Attachments.{get_attachment}
use web_mail.Api.Responses.{
  list_messages-Responds, get_message-Responds, get_raw_mime-Responds, get_attachment-Responds,
}
use web_mail.Server.{
  Env, App, Route, healthz, ingest, login, logout, beside_ingest, beside_login, spa, elsewhere,
  messages, message, raw, attachment, on_sessions, on_login, on_ingest, with_sessions, wrap, guard,
  limited_login, limited_ingest, ingest_handler, foreign_handler, deps, max_body_bytes,
  health_handler, spa_handler, dispatch, handle,
}
use web_mail.Server.Access.{after-cases}

-- What a handler of the router does with a response that is not yet sent.
pub record IsQuiet (request : Text) (a : App) (w : Writer) (x : App × Writer) : Type 0 where
  pub responds : Responds (framed request) w x.1
  pub unlogged : x.0.log ≡ a.log

abbrev pub AreQuiet : Text → Handler App → Type 0
AreQuiet request h =
    (r : Request) (a : App) (w : Writer) → w.sent ≡ none → IsQuiet request a w (h r a w)

abbrev AreSteady : Text → Middleware App → Type 0
AreSteady request m =
    (r : Request) (a : App) (w : Writer)
    → w.sent ≡ none
    → IsPolite (framed request) w (m r a w) × ((m r a w).state.log ≡ a.log)

wrap-AreQuiet :
    {request : Text} (m : Middleware App) (next : Handler App)
    → AreSteady request m
    → AreQuiet request next
    → AreQuiet request (wrap m next)
wrap-AreQuiet {request} m next steady quiet r a w fresh =
    let (polite, same) = steady r a w fresh in
    let o = m r a w in
    after-cases (IsQuiet request a w) o next
      (λ e. record { responds = polite.responds; unlogged = same })
      (λ r' e.
        let q = quiet r' o.state o.writer (polite.unsent r' e) in
        record { responds = trans polite.responds q.responds; unlogged = q.unlogged ∙ same })

module _ (env : Env) (request : Text)
    (polite : (r : Request) (w : Writer)
      → w.sent ≡ none
      → Responds (framed request) w (env.foreign r w)) where
  login-AreSteady : AreSteady request (on_login (rate_limit env.float64 env.instant))
  login-AreSteady r a w fresh =
      let p = rate_limit-IsPolite env.float64 env.instant r a.login_limiter w fresh in
      (record { responds = p.responds; unsent = p.unsent }, refl)

  ingest-AreSteady : AreSteady request (on_ingest (rate_limit env.float64 env.instant))
  ingest-AreSteady r a w fresh =
      let p = rate_limit-IsPolite env.float64 env.instant r a.ingest_limiter w fresh in
      (record { responds = p.responds; unsent = p.unsent }, refl)

  auth-AreSteady : AreSteady request (on_sessions (require_auth (some env.config) env.now))
  auth-AreSteady r a w fresh =
      let p = require_auth-IsPolite w fresh (some env.config) env.now r a.sessions in
      (record { responds = p.responds; unsent = p.unsent }, refl)

  size-AreSteady : (n : ℤ) → AreSteady request (max_body_size n)
  unfolding max_body_size
  size-AreSteady n r a w fresh = (max_body_size-IsPolite r a w fresh n, ground arith)

  cors-AreSteady : (allowed : Text) → AreSteady request (cors allowed)
  unfolding cors
  cors-AreSteady allowed r a w fresh = (cors-IsPolite r a w fresh allowed, ground arith)

  foreign-AreQuiet : AreQuiet request (foreign_handler env)
  foreign-AreQuiet r a w fresh = record { responds = polite r w fresh; unlogged = refl }

  limited_login-AreQuiet :
      (next : Handler App) → AreQuiet request next → AreQuiet request (limited_login env next)
  limited_login-AreQuiet next quiet =
      wrap-AreQuiet _ _ login-AreSteady (wrap-AreQuiet _ next (size-AreSteady max_body_bytes) quiet)

  limited_ingest-AreQuiet :
      (next : Handler App) → AreQuiet request next → AreQuiet request (limited_ingest env next)
  limited_ingest-AreQuiet next quiet =
      wrap-AreQuiet _ _ ingest-AreSteady
        (wrap-AreQuiet _ next (size-AreSteady env.config.max_message_bytes) quiet)

  guard-AreQuiet :
      (next : Request → App → Writer → Writer)
      → ((r : Request) (a : App) (w : Writer)
          → w.sent ≡ none
          → Responds (framed request) w (next r a w))
      → AreQuiet request (guard env (λ r a w. (a, next r a w)))
  guard-AreQuiet next responds =
      wrap-AreQuiet _ _ auth-AreSteady
        (λ r a w fresh. record { responds = responds r a w fresh; unlogged = refl })

  health-AreQuiet : AreQuiet request (λ r a w. (a, health_handler w))
  unfolding health_handler text_eq
  health-AreQuiet r a w fresh = record {
    responds =
        content _
          (set_status 200 fresh (header "Content-Type" (codes "application/json") refl here));
    unlogged = refl;
  }

  spa-Responds :
      (page : Option Text) (w : Writer)
      → w.sent ≡ none
      → Responds (framed request) w (spa_handler page w)
  unfolding spa_handler text_eq
  spa-Responds none w fresh = http_error-Responds 404 _ fresh here
  spa-Responds (some page) w fresh =
      content _ (header "Content-Type" (codes "text/html; charset=utf-8") refl here)

  handle-AreQuiet : (route : Route) → AreQuiet request (handle env route)
  unfolding handle
  handle-AreQuiet healthz = health-AreQuiet
  handle-AreQuiet ingest = limited_ingest-AreQuiet (ingest_handler env) (λ r a w fresh. record {
    responds =
        serve_http-Responds env.parsing env.faults env.disk env.base env.now _ w fresh
          (some env.config) r a.mail;
    unlogged = refl;
  })
  handle-AreQuiet beside_ingest = limited_ingest-AreQuiet (foreign_handler env) foreign-AreQuiet
  handle-AreQuiet login =
      limited_login-AreQuiet
        (with_sessions
          (login_handler env.table (some env.config) env.now env.random_token env.decoded))
        (λ r a w fresh. record {
          responds =
              login_handler-Responds w fresh env.table (some env.config) env.now env.random_token
                env.decoded r a.sessions;
          unlogged = refl;
        })
  handle-AreQuiet beside_login = limited_login-AreQuiet (foreign_handler env) foreign-AreQuiet
  handle-AreQuiet logout = λ r a w fresh. record {
    responds = logout_handler-Responds w fresh (some env.config) r a.sessions;
    unlogged = refl;
  }
  handle-AreQuiet (messages param) =
      guard-AreQuiet (λ r a w. list_messages (deps env a) param r w)
        (λ r a w fresh. list_messages-Responds (deps env a) w fresh param r)
  handle-AreQuiet (message id) =
      guard-AreQuiet (λ r a w. get_message (deps env a) id r w)
        (λ r a w fresh. get_message-Responds (deps env a) w fresh id r)
  handle-AreQuiet (raw id) =
      guard-AreQuiet (λ r a w. get_raw_mime (deps env a) id r w)
        (λ r a w fresh. get_raw_mime-Responds (deps env a) w fresh id r)
  handle-AreQuiet (attachment id idx) =
      guard-AreQuiet (λ r a w. get_attachment (deps env a) id idx r w)
        (λ r a w fresh. get_attachment-Responds (deps env a) w fresh id idx r)
  handle-AreQuiet spa =
      λ r a w fresh. record { responds = spa-Responds env.index_html w fresh; unlogged = refl }
  handle-AreQuiet elsewhere = foreign-AreQuiet

  dispatch-AreQuiet : AreQuiet request (dispatch env)
  unfolding dispatch
  dispatch-AreQuiet r = handle-AreQuiet (env.route r) r

  pub inner-AreQuiet : AreQuiet request (wrap (cors env.config.public_base_url) (dispatch env))
  inner-AreQuiet = wrap-AreQuiet _ _ (cors-AreSteady env.config.public_base_url) dispatch-AreQuiet
