-- ===== src/Server/Changes.antt =====
-- Who can change the stored messages.
use web_mail.Auth.{constant_time_compare}
use web_mail.Base.{
  ◌≢◌, [], arith, ◌⊎◌, text_eq_iff, ◌≡◌, refl, ◌∙◌, false, Option, none, some, codes, text_eq,
  Bool-cases, inl, inr,
}
use web_mail.Config.{Config}
use web_mail.Http.{header_get, Request, Writer, Handler}
use web_mail.Auth.{login_handler, require_auth}
use web_mail.Middleware.RateLimit.{rate_limit}
use web_mail.Ingest.Handler.{is_worker, serve_http}
use web_mail.Api.Messages.{list_messages, get_message, get_raw_mime}
use web_mail.Api.Attachments.{get_attachment}
use web_mail.Server.{
  Env, App, Route, healthz, ingest, login, logout, beside_ingest, beside_login, spa, elsewhere,
  messages, message, raw, attachment, on_sessions, on_login, on_ingest, with_sessions, guard,
  limited_login, limited_ingest, ingest_handler, foreign_handler, deps, max_body_bytes, handle,
  serve,
}
use web_mail.Server.Access.{after-cases, serve-cases}
use web_mail.Server.Limited.{
  IsUntouched, IsAlike, ingest_limiter-IsSteady, login_limiter-IsSteady, limited-cases,
}

is_worker-headers :
    (cfg : Option Config) (r r' : Request)
    → r'.headers ≡ r.headers
    → is_worker cfg r' ≡ is_worker cfg r
unfolding is_worker
is_worker-headers none r r' e = refl
is_worker-headers (some c) r r' e = rw e refl

-- A request that does not come from the worker: no PSK is set for it, or the header has another.
abbrev pub IsStranger : Config → Request → Type 0
IsStranger c r =
    (c.worker_ingest_psk ≡ [])
    ⊎ (header_get "X-Lite-Mail-Ingest-PSK" r.headers ≢ c.worker_ingest_psk)

is_worker-stranger : (c : Config) (r : Request) → IsStranger c r → is_worker (some c) r ≡ false
unfolding is_worker constant_time_compare
is_worker-stranger c r (inl unset) = rw unset refl
is_worker-stranger c r (inr other) =
    ground (
      arith,
      text_eq_iff (header_get "X-Lite-Mail-Ingest-PSK" r.headers) c.worker_ingest_psk,
      other,
    )

module _ (env : Env) where
  -- A handler that keeps the messages, for requests that do not come from the worker.
  abbrev Keeps : Handler App → Type 0
  Keeps h =
      (r : Request) (a : App) (w : Writer)
      → is_worker (some env.config) r ≡ false
      → (h r a w).0.mail ≡ a.mail

  -- Such a handler behind a rate limiter and a size limit.
  limited-Keeps :
      (next : Handler App) (r : Request) (a : App)
      → Keeps next
      → is_worker (some env.config) r ≡ false
      → (q : Request) (b : App) (v : Writer) → IsUntouched a b
      → IsAlike r q
      → v.sent ≡ none
      → (next q b v).0.mail ≡ a.mail
  limited-Keeps next r a keeps other q b v same alike unsent =
      keeps q b v (is_worker-headers (some env.config) r q alike.headers ∙ other) ∙ same.mail

  limited_login-Keeps :
      (next : Handler App) (r : Request) (a : App) (w : Writer)
      → Keeps next
      → w.sent ≡ none
      → is_worker (some env.config) r ≡ false
      → (limited_login env next r a w).0.mail ≡ a.mail
  limited_login-Keeps next r a w keeps fresh other =
      limited-cases (λ x. x.0.mail ≡ a.mail) (on_login (rate_limit env.float64 env.instant))
        max_body_bytes next r a w (login_limiter-IsSteady env r a w fresh) (λ b v same. same.mail)
        (limited-Keeps next r a keeps other)

  limited_ingest-Keeps :
      (next : Handler App) (r : Request) (a : App) (w : Writer)
      → Keeps next
      → w.sent ≡ none
      → is_worker (some env.config) r ≡ false
      → (limited_ingest env next r a w).0.mail ≡ a.mail
  limited_ingest-Keeps next r a w keeps fresh other =
      limited-cases (λ x. x.0.mail ≡ a.mail) (on_ingest (rate_limit env.float64 env.instant))
        env.config.max_message_bytes next r a w (ingest_limiter-IsSteady env r a w fresh)
        (λ b v same. same.mail) (limited-Keeps next r a keeps other)

  guard-Keeps :
      (next : Request → App → Writer → Writer) → Keeps (guard env (λ r a w. (a, next r a w)))
  guard-Keeps next r a w other =
      after-cases (λ x. x.0.mail ≡ a.mail)
        (on_sessions (require_auth (some env.config) env.now) r a w)
        (λ r' a' w'. (a', next r' a' w')) (λ e. refl) (λ r' e. refl)

  ingest_handler-Keeps : Keeps (ingest_handler env)
  unfolding serve_http
  ingest_handler-Keeps r a w other = elim (Bool-cases (text_eq r.method (codes "POST"))) [
    | inl post ↦ rw (serve_http, post, other) refl
    | inr wrong ↦ rw (serve_http, wrong) refl
  ]

  handle-Keeps :
      (route : Route) (r : Request) (a : App) (w : Writer)
      → w.sent ≡ none
      → is_worker (some env.config) r ≡ false
      → (handle env route r a w).0.mail ≡ a.mail
  unfolding handle
  handle-Keeps healthz r a w fresh other = refl
  handle-Keeps ingest r a w fresh other =
      limited_ingest-Keeps (ingest_handler env) r a w ingest_handler-Keeps fresh other
  handle-Keeps beside_ingest r a w fresh other =
      limited_ingest-Keeps (foreign_handler env) r a w (λ q b v e. refl) fresh other
  handle-Keeps login r a w fresh other =
      limited_login-Keeps
        (with_sessions
          (login_handler env.table (some env.config) env.now env.random_token env.decoded))
        r a w (λ q b v e. refl) fresh other
  handle-Keeps beside_login r a w fresh other =
      limited_login-Keeps (foreign_handler env) r a w (λ q b v e. refl) fresh other
  handle-Keeps logout r a w fresh other = refl
  handle-Keeps (messages param) r a w fresh other =
      guard-Keeps (λ r' a' w'. list_messages (deps env a') param r' w') r a w other
  handle-Keeps (message id) r a w fresh other =
      guard-Keeps (λ r' a' w'. get_message (deps env a') id r' w') r a w other
  handle-Keeps (raw id) r a w fresh other =
      guard-Keeps (λ r' a' w'. get_raw_mime (deps env a') id r' w') r a w other
  handle-Keeps (attachment id idx) r a w fresh other =
      guard-Keeps (λ r' a' w'. get_attachment (deps env a') id idx r' w') r a w other
  handle-Keeps spa r a w fresh other = refl
  handle-Keeps elsewhere r a w fresh other = refl

  -- If no PSK is configured for the worker, or a request has not that PSK in its header, it changes
  -- neither the database nor the files, on whatever route.
  pub serve-Keeps :
      (r : Request) (a : App) (w : Writer)
      → w.sent ≡ none
      → IsStranger env.config r
      → (serve env r a w).0.mail ≡ a.mail
  serve-Keeps r a w fresh stranger =
      let other = is_worker-stranger env.config r stranger in
      serve-cases env (λ x. x.0.mail ≡ a.mail) r a w fresh (λ line x h. h) (λ w' e options. refl)
        (λ i w' sent blank request.
          let r' = record r { request_id = i } in
          handle-Keeps (env.route r') r' a w' sent
            (is_worker-headers (some env.config) r r' refl ∙ other))
