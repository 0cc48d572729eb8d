-- ===== src/Server/Sessions.antt =====
-- What one request to the router does to one session of the store.
use web_mail.Base.{
  ◌≡◌, refl, sym, ap, ◌∙◌, ◌≢◌, ◌⊎◌, inl, inr, Option, none, some, List, [], ◌∷◌, ◌++◌, Text, codes,
}
use web_mail.Session.{Session, find}
use web_mail.Http.{Request, Writer, Handler, Cookie, cookie}
use web_mail.Auth.{
  LoginRequest, login_handler, require_auth, new_session_cookie, session_cookie_name,
}
use web_mail.Auth.Origin.{
  IsGranted, login_handler-IsOpening, find-logout_handler, find-require_auth,
}
use web_mail.Middleware.RateLimit.{rate_limit}
use web_mail.Api.Messages.{list_messages, get_message, get_raw_mime}
use web_mail.Api.Attachments.{get_attachment}
use web_mail.Server.{
  Env, App, Route, healthz, ingest, login, logout, beside_ingest, beside_login, spa, elsewhere,
  messages, message, raw, attachment, on_sessions, on_login, on_ingest, with_sessions, guard,
  limited_login, limited_ingest, ingest_handler, foreign_handler, deps, max_body_bytes, handle,
  serve,
}
use web_mail.Server.Access.{after-cases, serve-cases}
use web_mail.Server.Limited.{
  IsUntouched, IsAlike, ingest_limiter-IsSteady, login_limiter-IsSteady, limited-cases,
}

module _ (env : Env) where
  -- A request whose answer opens a session: its credentials are accepted, and the answer has the
  -- session's cookie.
  pub record IsLogin (r : Request) (v : Writer) (session : Session) : Type 0 where
    pub given : Option Text
    pub routed : env.route (record r { request_id = given }) ≡ login
    pub post : r.method ≡ codes "POST"
    pub req : LoginRequest
    pub read : env.decoded ≡ some req
    pub granted : IsGranted env.table env.config env.now req session
    pub before : List Cookie
    pub cookies :
        v.cookies
        ≡ before ++ new_session_cookie (some env.config) session.token session.expires_at ∷ []

  -- A request that closes the session of a token.
  pub record IsLogout (r : Request) (token : Text) : Type 0 where
    pub routed : (i : Option Text) → env.route (record r { request_id = i }) ≡ logout
    pub post : r.method ≡ codes "POST"
    pub carried : cookie (session_cookie_name (some env.config)) r.cookies ≡ some token

  module _ (u : Text) (session : Session) (r : Request) (a : App) where
    -- A session that is stored after the request was stored before and is not closed by it, or is
    -- opened by it.
    abbrev pub Follows : App × Writer → Type 0
    Follows x =
        find u x.0.sessions ≡ some session
        → ((find u a.sessions ≡ some session) × (¬ IsLogout r u))
          ⊎ (IsLogin r x.1 session × (session.token ≡ u))

    module _ (i : Option Text) where
      unclosed : env.route (record r { request_id = i }) ≢ logout → ¬ IsLogout r u
      unclosed other = λ l. other (l.routed i)

      stays :
          env.route (record r { request_id = i }) ≢ logout
          → (b : App) (v : Writer) → b.sessions ≡ a.sessions
          → Follows (b, v)
      stays other b v same = λ e. inl (sym (ap (find u) same) ∙ e, unclosed other)

      ingest-Follows :
          (next : Handler App)
          → ((q : Request) (b : App) (v : Writer) → (next q b v).0.sessions ≡ b.sessions)
          → env.route (record r { request_id = i }) ≢ logout
          → (w : Writer) → w.sent ≡ none
          → Follows (limited_ingest env next (record r { request_id = i }) a w)
      ingest-Follows next kept other w fresh =
          let r' = record r { request_id = i } in
          limited-cases Follows (on_ingest (rate_limit env.float64 env.instant))
            env.config.max_message_bytes next r' a w (ingest_limiter-IsSteady env r' a w fresh)
            (λ b v same. stays other b v same.sessions)
            (λ q b v same alike unsent. stays other (next q b v).0 _ (kept q b v ∙ same.sessions))

      login-Follows :
          (next : Handler App)
          → env.route (record r { request_id = i }) ≢ logout
          → ((q : Request) (b : App) (v : Writer)
              → IsUntouched a b
              → IsAlike r q
              → v.sent ≡ none
              → Follows (next q b v))
          → (w : Writer) → w.sent ≡ none
          → Follows (limited_login env next (record r { request_id = i }) a w)
      login-Follows next other go w fresh =
          let r' = record r { request_id = i } in
          limited-cases Follows (on_login (rate_limit env.float64 env.instant)) max_body_bytes next
            r' a w (login_limiter-IsSteady env r' a w fresh)
            (λ b v same. stays other b v same.sessions)
            (λ q b v same alike unsent.
              go q b v same (record { method = alike.method; headers = alike.headers }) unsent)

      abbrev opening : Handler App
      opening =
          with_sessions
            (login_handler env.table (some env.config) env.now env.random_token env.decoded)

      handler-Follows :
          env.route (record r { request_id = i }) ≡ login
          → (q : Request) (b : App) (v : Writer) → IsUntouched a b
          → IsAlike r q
          → v.sent ≡ none
          → Follows (opening q b v)
      handler-Follows routed q b v same alike unsent e =
          elim (login_handler-IsOpening env.table env.config env.now env.random_token b.sessions v
            env.decoded q u session unsent e) [
              | inl old ↦ inl (sym (ap (find u) same.sessions) ∙ old, unclosed (λ p. cc))
              | inr o ↦ inr (
                record {
                  given = i;
                  routed = routed;
                  post = sym alike.method ∙ o.post;
                  req = o.req;
                  read = o.read;
                  granted = o.granted;
                  before = v.cookies;
                  cookies = rw o.named o.cookies;
                },
                o.named,
              )
            ]

      guard-Follows :
          (next : Request → App → Writer → Writer) (w : Writer)
          → env.route (record r { request_id = i }) ≢ logout
          → Follows (guard env (λ q b v. (b, next q b v)) (record r { request_id = i }) a w)
      guard-Follows next w other =
          let r' = record r { request_id = i } in
          let old = find-require_auth (some env.config) env.now r' u session a.sessions w in
          after-cases Follows (on_sessions (require_auth (some env.config) env.now) r' a w)
            (λ q b v. (b, next q b v)) (λ p e. inl (old e, unclosed other))
            (λ q p e. inl (old e, unclosed other))

      handle-Follows :
          (route : Route) (w : Writer)
          → env.route (record r { request_id = i }) ≡ route
          → w.sent ≡ none
          → Follows (handle env route (record r { request_id = i }) a w)
      unfolding handle
      handle-Follows healthz w at fresh = stays (λ p. cc) a _ refl
      handle-Follows ingest w at fresh =
          ingest-Follows (ingest_handler env) (λ q b v. refl) (λ p. cc) w fresh
      handle-Follows beside_ingest w at fresh =
          ingest-Follows (foreign_handler env) (λ q b v. refl) (λ p. cc) w fresh
      handle-Follows login w at fresh = login-Follows opening (λ p. cc) (handler-Follows at) w fresh
      handle-Follows beside_login w at fresh =
          login-Follows (foreign_handler env) (λ p. cc)
            (λ q b v same alike unsent. stays (λ p. cc) b _ same.sessions) w fresh
      handle-Follows logout w at fresh = λ e.
          let (old, open_) =
            find-logout_handler (some env.config) (record r { request_id = i }) u session a.sessions
              w e in
          inl (old, λ l. open_ l.post l.carried)
      handle-Follows (messages param) w at fresh =
          guard-Follows (λ q b v. list_messages (deps env b) param q v) w (λ p. cc)
      handle-Follows (message id) w at fresh =
          guard-Follows (λ q b v. get_message (deps env b) id q v) w (λ p. cc)
      handle-Follows (raw id) w at fresh =
          guard-Follows (λ q b v. get_raw_mime (deps env b) id q v) w (λ p. cc)
      handle-Follows (attachment id idx) w at fresh =
          guard-Follows (λ q b v. get_attachment (deps env b) id idx q v) w (λ p. cc)
      handle-Follows spa w at fresh = stays (λ p. cc) a _ refl
      handle-Follows elsewhere w at fresh = stays (λ p. cc) a _ refl

    clash : codes "OPTIONS" ≢ codes "POST"
    clash p = cc

    pub serve-Follows : (w : Writer) → w.sent ≡ none → Follows (serve env r a w)
    serve-Follows w fresh =
        serve-cases env Follows r a w fresh
          (λ line x h e. elim (h e) [
            | inl old ↦ inl old
            | inr (l, named) ↦ inr (record l {}, named)
          ])
          (λ v status options e. inl (e, λ l. clash (sym options ∙ l.post)))
          (λ i v sent blank other. handle-Follows i _ v refl sent)
