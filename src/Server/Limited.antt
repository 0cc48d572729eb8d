-- ===== src/Server/Limited.antt =====
-- The rate limiters and size limits in front of /api/ingest and /api/login.
use web_mail.Base.{◌≡◌, refl, ap, ◌∙◌, none, [], ℤ, ℕ, arith}
use web_mail.Http.{Request, Writer, Handler, Middleware, pass}
use web_mail.Middleware.{max_body_size}
use web_mail.Middleware.RateLimit.{Float64, Limiter, rate_limit}
use web_mail.Middleware.Responses.{rate_limit-IsPolite, max_body_size-IsPolite}
use web_mail.Server.{Env, App, wrap, on_login, on_ingest}
use web_mail.Server.Access.{after-cases}

rate_limit-request :
    (fl : Float64) (now : ℕ) (r r' : Request) (rl : Limiter) (w : Writer)
    → (rate_limit fl now r rl w).verdict ≡ pass r'
    → r' ≡ r
unfolding rate_limit
rate_limit-request fl now r r' rl w e = ground arith

-- What a handler behind the limits sees of the request is as it was.
pub record IsAlike (r q : Request) : Type 0 where
  pub method : q.method ≡ r.method
  pub headers : q.headers ≡ r.headers

module _ (n : ℤ) (r : Request) (a : App) (w : Writer) where
  pub max_body_size-state : (max_body_size n r a w).state ≡ a
  unfolding max_body_size
  max_body_size-state = ground arith

  max_body_size-IsAlike : (q : Request) → (max_body_size n r a w).verdict ≡ pass q → IsAlike r q
  unfolding max_body_size
  max_body_size-IsAlike q e = record { method = ground arith; headers = ground arith }

-- A middleware that changes neither sessions nor messages, and passes on only the request itself
-- with nothing sent.
pub record IsSteady (m : Middleware App) (r : Request) (a : App) (w : Writer) : Type 0 where
  sessions : (m r a w).state.sessions ≡ a.sessions
  mail : (m r a w).state.mail ≡ a.mail
  passes : (q : Request) → (m r a w).verdict ≡ pass q → (q ≡ r) × ((m r a w).writer.sent ≡ none)

module _ (env : Env) (r : Request) (a : App) (w : Writer) (fresh : w.sent ≡ none) where
  pub login_limiter-IsSteady : IsSteady (on_login (rate_limit env.float64 env.instant)) r a w
  login_limiter-IsSteady =
      let polite =
        rate_limit-IsPolite {request = []} env.float64 env.instant r a.login_limiter w fresh in
      record {
        sessions = refl;
        mail = refl;
        passes = λ q e.
            (rate_limit-request env.float64 env.instant r q a.login_limiter w e, polite.unsent q e);
      }

  pub ingest_limiter-IsSteady : IsSteady (on_ingest (rate_limit env.float64 env.instant)) r a w
  ingest_limiter-IsSteady =
      let polite =
        rate_limit-IsPolite {request = []} env.float64 env.instant r a.ingest_limiter w fresh in
      record {
        sessions = refl;
        mail = refl;
        passes = λ q e. (
          rate_limit-request env.float64 env.instant r q a.ingest_limiter w e,
          polite.unsent q e,
        );
      }

-- The sessions and messages of `b` are those of `a`.
pub record IsUntouched (a b : App) : Type 0 where
  pub sessions : b.sessions ≡ a.sessions
  pub mail : b.mail ≡ a.mail

-- A rate limiter and a size limit answer, or call the handler behind them.
pub limited-cases :
    (P : App × Writer → Type 0) (m : Middleware App) (n : ℤ) (next : Handler App) (r : Request)
    (a : App) (w : Writer)
    → IsSteady m r a w
    → ((b : App) (v : Writer) → IsUntouched a b → P (b, v))
    → ((q : Request) (b : App) (v : Writer)
        → IsUntouched a b
        → IsAlike r q
        → v.sent ≡ none
        → P (next q b v))
    → P (wrap m (wrap (max_body_size n) next) r a w)
limited-cases P m n next r a w steady stop go =
    let o = m r a w in
    after-cases P o (wrap (max_body_size n) next)
      (λ e. stop o.state o.writer (record { sessions = steady.sessions; mail = steady.mail }))
      (λ r1 e.
        let (unchanged, unsent) = steady.passes r1 e in
        let limited = max_body_size n r1 o.state o.writer in
        let same = max_body_size-state n r1 o.state o.writer in
        let kept : IsUntouched a limited.state = record {
          sessions = ap App.sessions same ∙ steady.sessions;
          mail = ap App.mail same ∙ steady.mail;
        } in
        after-cases P limited next (λ e'. stop limited.state limited.writer kept)
          (λ q e'.
            let alike = max_body_size-IsAlike n r1 o.state o.writer q e' in
            go q limited.state limited.writer kept
              (record {
                method = alike.method ∙ ap Request.method unchanged;
                headers = alike.headers ∙ ap Request.headers unchanged;
              })
              ((max_body_size-IsPolite {request = []} r1 o.state o.writer unsent n).unsent q e')))
