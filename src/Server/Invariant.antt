-- ===== src/Server/Invariant.antt =====
-- What every request to the router keeps of the messages, if the ingest handler keeps it.
use web_mail.Base.{◌≡◌, sym, subst, none, some, true}
use web_mail.Http.{Request, Writer}
use web_mail.Auth.{login_handler, require_auth}
use web_mail.Middleware.RateLimit.{rate_limit}
use web_mail.Ingest.Handler.{State, serve_http}
use web_mail.Api.Messages.{list_messages, get_message, get_raw_mime}
use web_mail.Api.Attachments.{get_attachment}
use web_mail.Server.{
  Env, App, Route, healthz, ingest, login, logout, beside_ingest, beside_login, spa, elsewhere,
  messages, message, raw, attachment, on_sessions, on_login, on_ingest, with_sessions,
  ingest_handler, foreign_handler, deps, max_body_bytes, handle, serve,
}
use web_mail.Server.Access.{after-cases, serve-cases}
use web_mail.Server.Limited.{
  IsUntouched, ingest_limiter-IsSteady, login_limiter-IsSteady, limited-cases,
}

module _ (Inv : State → Type 0) (env : Env)
    (kept : (r : Request) (st : State) (w : Writer)
      → Inv st
      → Inv
          (serve_http env.parsing env.faults env.disk env.base env.now true
            (some env.config)
            r
            st
            w).0)
    (a : App) (held : Inv a.mail) where
  abbrev Holds : App × Writer → Type 0
  Holds x = Inv x.0.mail

  still : (b : App) → IsUntouched a b → Inv b.mail
  still b same = subst Inv (sym same.mail) held

  handle-Holds :
      (route : Route) (r : Request) (w : Writer) → w.sent ≡ none → Holds (handle env route r a w)
  unfolding handle
  handle-Holds healthz r w fresh = held
  handle-Holds ingest r w fresh =
      limited-cases Holds (on_ingest (rate_limit env.float64 env.instant))
        env.config.max_message_bytes (ingest_handler env) r a w
        (ingest_limiter-IsSteady env r a w fresh) (λ b v same. still b same)
        (λ q b v same alike unsent. kept q b.mail v (still b same))
  handle-Holds beside_ingest r w fresh =
      limited-cases Holds (on_ingest (rate_limit env.float64 env.instant))
        env.config.max_message_bytes (foreign_handler env) r a w
        (ingest_limiter-IsSteady env r a w fresh) (λ b v same. still b same)
        (λ q b v same alike unsent. still b same)
  handle-Holds login r w fresh =
      limited-cases Holds (on_login (rate_limit env.float64 env.instant)) max_body_bytes
        (with_sessions
          (login_handler env.table (some env.config) env.now env.random_token env.decoded))
        r a w (login_limiter-IsSteady env r a w fresh) (λ b v same. still b same)
        (λ q b v same alike unsent. still b same)
  handle-Holds beside_login r w fresh =
      limited-cases Holds (on_login (rate_limit env.float64 env.instant)) max_body_bytes
        (foreign_handler env) r a w (login_limiter-IsSteady env r a w fresh)
        (λ b v same. still b same) (λ q b v same alike unsent. still b same)
  handle-Holds logout r w fresh = held
  handle-Holds (messages param) r w fresh =
      after-cases Holds (on_sessions (require_auth (some env.config) env.now) r a w)
        (λ q b v. (b, list_messages (deps env b) param q v)) (λ e. held) (λ q e. held)
  handle-Holds (message id) r w fresh =
      after-cases Holds (on_sessions (require_auth (some env.config) env.now) r a w)
        (λ q b v. (b, get_message (deps env b) id q v)) (λ e. held) (λ q e. held)
  handle-Holds (raw id) r w fresh =
      after-cases Holds (on_sessions (require_auth (some env.config) env.now) r a w)
        (λ q b v. (b, get_raw_mime (deps env b) id q v)) (λ e. held) (λ q e. held)
  handle-Holds (attachment id idx) r w fresh =
      after-cases Holds (on_sessions (require_auth (some env.config) env.now) r a w)
        (λ q b v. (b, get_attachment (deps env b) id idx q v)) (λ e. held) (λ q e. held)
  handle-Holds spa r w fresh = held
  handle-Holds elsewhere r w fresh = held

  pub serve-Holds : (r : Request) (w : Writer) → w.sent ≡ none → Inv (serve env r a w).0.mail
  serve-Holds r w fresh =
      serve-cases env Holds r a w fresh (λ line x h. h) (λ v status options. held)
        (λ i v sent blank other. handle-Holds _ _ v sent)
