-- ===== src/Server/Attempts.antt =====
-- What one request to the router does to the rate limiter of /api/login.
use web_mail.Base.{
  ◌≡◌, ◌≢◌, refl, sym, ap, ◌∙◌, subst, Bool, true, false, not, ◌&&◌, Option, none, some, Text,
  codes, text_eq, text_eq_iff, arith, ◌∷◌,
}
use web_mail.Http.{Request, Writer, Handler, answered, pass, status_of}
use web_mail.Auth.{login_handler, require_auth}
use web_mail.Middleware.{max_body_size}
use web_mail.Middleware.RateLimit.{
  Limiter, Answer, allow, get_client_ip, rate_limit, limit_headers, too_many,
}
use web_mail.Api.Messages.{list_messages, get_message, get_raw_mime}
use web_mail.Api.Attachments.{get_attachment}
use web_mail.Server.{
  Env, App, Route, healthz, ingest, login, logout, beside_ingest, beside_login, spa, elsewhere,
  messages, message, raw, attachment, on_sessions, on_login, on_ingest, with_sessions, wrap, guard,
  limited_login, limited_ingest, ingest_handler, foreign_handler, deps, max_body_bytes, handle,
  serve,
}
use web_mail.Server.Access.{after-cases, serve-cases}
use web_mail.Server.Limited.{max_body_size-state}

-- The routes behind the limiter.
unfoldable pub is_limited : Route → Bool
is_limited login = true
is_limited beside_login = true
is_limited _ = false

module _ (env : Env) where
  -- Whether a request gets to the limiter: CORS answers preflights before it.
  unfoldable pub reaches : Request → Bool
  unfolding is_limited
  reaches r = not (text_eq r.method (codes "OPTIONS")) && is_limited (env.route r)

  abbrev allowance : Request → App → Limiter × Answer
  allowance r a = allow env.float64 (get_client_ip r) env.instant a.login_limiter

  -- The limiter made its move, and let the request through unless the answer is 429.
  pub record IsCounted (r : Request) (a : App) (x : App × Writer) : Type 0 where
    pub moved :
        x.0.login_limiter ≡ (allow env.float64 (get_client_ip r) env.instant a.login_limiter).0
    pub passed :
        status_of x.1 ≢ some 429
        → (allow env.float64 (get_client_ip r) env.instant a.login_limiter).1.allowed ≡ true

  rate_limit-429 :
      (r : Request) (rl : Limiter) (w : Writer)
      → w.sent ≡ none
      → (rate_limit env.float64 env.instant r rl w).verdict ≡ answered
      → status_of (rate_limit env.float64 env.instant r rl w).writer ≡ some 429
  unfolding rate_limit too_many limit_headers
  rate_limit-429 r rl w fresh e = ground arith

  rate_limit-allowed :
      (r q : Request) (rl : Limiter) (w : Writer)
      → (rate_limit env.float64 env.instant r rl w).verdict ≡ pass q
      → (allow env.float64 (get_client_ip r) env.instant rl).1.allowed ≡ true
  unfolding rate_limit
  rate_limit-allowed r q rl w e = ground arith

  rate_limit-state :
      (r : Request) (rl : Limiter) (w : Writer)
      → (rate_limit env.float64 env.instant r rl w).state
        ≡ (allow env.float64 (get_client_ip r) env.instant rl).0
  unfolding rate_limit
  rate_limit-state r rl w = ground arith

  limited_login-IsCounted :
      (next : Handler App)
      → ((q : Request) (b : App) (v : Writer) → (next q b v).0.login_limiter ≡ b.login_limiter)
      → (r : Request) (a : App) (w : Writer) → w.sent ≡ none
      → IsCounted r a (limited_login env next r a w)
  limited_login-IsCounted next keeps r a w fresh =
      let o = on_login (rate_limit env.float64 env.instant) r a w in
      let moved = rate_limit-state r a.login_limiter w in
      after-cases (IsCounted r a) o (wrap (max_body_size max_body_bytes) next)
        (λ e. record {
          moved = moved;
          passed = λ other. absurd (other (rate_limit-429 r a.login_limiter w fresh e));
        })
        (λ q e.
          let allowed = rate_limit-allowed r q a.login_limiter w e in
          let limited = max_body_size max_body_bytes q o.state o.writer in
          let same = ap App.login_limiter (max_body_size-state max_body_bytes q o.state o.writer) in
          after-cases (IsCounted r a) limited next
            (λ e'. record { moved = same ∙ moved; passed = λ other. allowed })
            (λ q' e'. record {
              moved = keeps q' limited.state limited.writer ∙ same ∙ moved;
              passed = λ other. allowed;
            }))

  -- By whether the request gets to the limiter: it is counted, or the limiter stays as it was.
  abbrev pub Moves : Bool → Request → App → App × Writer → Type 0
  Moves true r a x = IsCounted r a x
  Moves false r a x = x.0.login_limiter ≡ a.login_limiter

  limited_ingest-same :
      (next : Handler App)
      → ((q : Request) (b : App) (v : Writer) → (next q b v).0.login_limiter ≡ b.login_limiter)
      → (r : Request) (a : App) (w : Writer)
      → (limited_ingest env next r a w).0.login_limiter ≡ a.login_limiter
  limited_ingest-same next keeps r a w =
      let n = env.config.max_message_bytes in
      let o = on_ingest (rate_limit env.float64 env.instant) r a w in
      after-cases (λ x. x.0.login_limiter ≡ a.login_limiter) o (wrap (max_body_size n) next)
        (λ e. refl)
        (λ q e.
          let limited = max_body_size n q o.state o.writer in
          let same = ap App.login_limiter (max_body_size-state n q o.state o.writer) in
          after-cases (λ x. x.0.login_limiter ≡ a.login_limiter) limited next (λ e'. same)
            (λ q' e'. keeps q' limited.state limited.writer ∙ same))

  guard-same :
      (next : Request → App → Writer → Writer) (r : Request) (a : App) (w : Writer)
      → (guard env (λ q b v. (b, next q b v)) r a w).0.login_limiter ≡ a.login_limiter
  guard-same next r a w =
      after-cases (λ x. x.0.login_limiter ≡ a.login_limiter)
        (on_sessions (require_auth (some env.config) env.now) r a w) (λ q b v. (b, next q b v))
        (λ e. refl) (λ q e. refl)

  handle-Moves :
      (route : Route) (r : Request) (a : App) (w : Writer)
      → w.sent ≡ none
      → Moves (is_limited route) r a (handle env route r a w)
  unfolding handle is_limited
  handle-Moves healthz r a w fresh = refl
  handle-Moves ingest r a w fresh = limited_ingest-same (ingest_handler env) (λ q b v. refl) r a w
  handle-Moves beside_ingest r a w fresh =
      limited_ingest-same (foreign_handler env) (λ q b v. refl) r a w
  handle-Moves login r a w fresh =
      limited_login-IsCounted
        (with_sessions
          (login_handler env.table (some env.config) env.now env.random_token env.decoded))
        (λ q b v. refl) r a w fresh
  handle-Moves beside_login r a w fresh =
      limited_login-IsCounted (foreign_handler env) (λ q b v. refl) r a w fresh
  handle-Moves logout r a w fresh = refl
  handle-Moves (messages param) r a w fresh =
      guard-same (λ q b v. list_messages (deps env b) param q v) r a w
  handle-Moves (message id) r a w fresh =
      guard-same (λ q b v. get_message (deps env b) id q v) r a w
  handle-Moves (raw id) r a w fresh = guard-same (λ q b v. get_raw_mime (deps env b) id q v) r a w
  handle-Moves (attachment id idx) r a w fresh =
      guard-same (λ q b v. get_attachment (deps env b) id idx q v) r a w
  handle-Moves spa r a w fresh = refl
  handle-Moves elsewhere r a w fresh = refl

  logged-Moves :
      (b : Bool) (r : Request) (a a' : App) (w : Writer)
      → Moves b r a (a', w)
      → (a'' : App) → a''.login_limiter ≡ a'.login_limiter
      → Moves b r a (a'', w)
  logged-Moves true r a a' w m a'' same = record { moved = same ∙ m.moved; passed = m.passed }
  logged-Moves false r a a' w m a'' same = same ∙ m

  -- The id of a request does not matter.
  renamed-Moves :
      (b : Bool) (r : Request) (i : Option Text) (a : App) (x : App × Writer)
      → Moves b (record r { request_id = i }) a x
      → Moves b r a x
  unfolding get_client_ip
  renamed-Moves true r i a x m = record { moved = m.moved; passed = m.passed }
  renamed-Moves false r i a x m = m

  preflight-reaches : (r : Request) → r.method ≡ codes "OPTIONS" → reaches r ≡ false
  unfolding reaches
  preflight-reaches r e = ground (arith, text_eq_iff r.method (codes "OPTIONS"))

  other-reaches : (r : Request) → r.method ≢ codes "OPTIONS" → reaches r ≡ is_limited (env.route r)
  unfolding reaches
  other-reaches r other = ground (arith, text_eq_iff r.method (codes "OPTIONS"))

  -- The router as a whole. `routed` is that chi finds the route whatever the request's id is.
  pub serve-Moves :
      (r : Request) (a : App) (w : Writer)
      → w.sent ≡ none
      → ((i : Option Text) → env.route (record r { request_id = i }) ≡ env.route r)
      → Moves (reaches r) r a (serve env r a w)
  serve-Moves r a w fresh routed =
      serve-cases env (Moves (reaches r) r a) r a w fresh
        (λ line x m.
          logged-Moves (reaches r) r a x.0 x.1 m (record x.0 { log = line ∷ x.0.log }) refl)
        (λ v status options.
          subst (λ b. Moves b r a (a, v)) (sym (preflight-reaches r options)) refl)
        (λ i v sent blank other.
          let r' = record r { request_id = i } in
          subst (λ b. Moves b r a (handle env (env.route r') r' a v))
            (ap is_limited (routed i) ∙ sym (other-reaches r other))
            (renamed-Moves (is_limited (env.route r')) r i a (handle env (env.route r') r' a v)
              (handle-Moves (env.route r') r' a v sent)))
