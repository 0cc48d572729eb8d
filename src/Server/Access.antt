-- ===== src/Server/Access.antt =====
-- Who gets through the router to the stored messages, and who can change them.
use web_mail.Base.{
  ◌≢◌, ◌∷◌, ℕ, ◌≡◌, refl, ap, sym, ◌∙◌, subst, Option, none, some, Text, codes, text_eq_iff, arith,
}
use web_mail.Session.{Session}
use web_mail.Http.{Request, Writer, Handler, Outcome, Verdict, answered, pass, status_of}
use web_mail.Auth.{require_auth}
use web_mail.Auth.Access.{IsLive, require_auth_iff, require_auth-refused, require_auth-unchanged}
use web_mail.Middleware.{request_id, security_headers, cors}
use web_mail.Middleware.{LogLine}
use web_mail.Server.{Route, Env, App, dispatch, logged, after, guard, handle, serve, on_sessions}

-- A middleware answers, or calls the next handler.
pub after-cases :
    (P : App × Writer → Type 0) (o : Outcome App) (next : Handler App)
    → (o.verdict ≡ answered → P (o.state, o.writer))
    → ((r : Request) → o.verdict ≡ pass r → P (next r o.state o.writer))
    → P (after o next)
unfolding after
after-cases P o next stop go = by_verdict o.verdict refl
  where
    by_verdict : (v : Verdict) → o.verdict ≡ v → P (after o next)
    by_verdict answered e = rw (after, e) (stop e)
    by_verdict (pass r) e = rw (after, e) (go r e)

after-answered :
    (o : Outcome App) (next : Handler App)
    → o.verdict ≡ answered
    → after o next ≡ (o.state, o.writer)
unfolding after
after-answered o next e = rw (after, e) refl

after-pass :
    (o : Outcome App) (next : Handler App) (r : Request)
    → o.verdict ≡ pass r
    → after o next ≡ next r o.state o.writer
unfolding after
after-pass o next r e = rw (after, e) refl

module _ (allowed : Text) (r : Request) (a : App) (w : Writer) where
  cors-state : (cors allowed r a w).state ≡ a
  unfolding cors
  cors-state = ground arith

  cors-answered :
      w.sent ≡ none
      → (cors allowed r a w).verdict ≡ answered
      → (status_of (cors allowed r a w).writer ≡ some 204) × (r.method ≡ codes "OPTIONS")
  unfolding cors
  cors-answered fresh e = (ground arith, ground (arith, text_eq_iff r.method (codes "OPTIONS")))

  cors-pass :
      (r' : Request)
      → w.sent ≡ none
      → (cors allowed r a w).verdict ≡ pass r'
      → (r' ≡ r)
        × ((cors allowed r a w).writer.sent ≡ none)
        × ((cors allowed r a w).writer.body ≡ w.body)
        × (r.method ≢ codes "OPTIONS")
  unfolding cors
  cors-pass r' fresh e = (
    ground arith,
    ground arith,
    ground arith,
    λ p. ground (arith, text_eq_iff r.method (codes "OPTIONS")),
  )

module _ (env : Env) where
  -- The router answers a preflight itself, or calls the handler of the route.
  pub serve-cases :
      (P : App × Writer → Type 0) (r : Request) (a : App) (w : Writer)
      → w.sent ≡ none
      → ((line : LogLine) (x : App × Writer) → P x → P (record x.0 { log = line ∷ x.0.log }, x.1))
      → ((w' : Writer) → status_of w' ≡ some 204 → r.method ≡ codes "OPTIONS" → P (a, w'))
      → ((i : Option Text) (w' : Writer)
          → w'.sent ≡ none
          → w'.body ≡ w.body
          → r.method ≢ codes "OPTIONS"
          → P (
              handle env
                (env.route (record r { request_id = i }))
                (record r { request_id = i })
                a
                w'))
      → P (serve env r a w)
  unfolding serve request_id security_headers after dispatch logged
  serve-cases P r a w fresh kept preflight routed =
      kept _ _ (through (record r { request_id = _ }) _ _ refl fresh refl)
    where
      through :
          (r1 : Request) (w1 : Writer) (i : Option Text)
          → r1 ≡ record r { request_id = i }
          → w1.sent ≡ none
          → w1.body ≡ w.body
          → P (after (cors env.config.public_base_url r1 a w1) (dispatch env))
      through r1 w1 i same sent blank =
          let allowed = env.config.public_base_url in
          let o = cors allowed r1 a w1 in
          after-cases P o (dispatch env)
            (λ e.
              subst (λ b. P (b, o.writer)) (sym (cors-state allowed r1 a w1))
                (let (status, options) = cors-answered allowed r1 a w1 sent e in
                  preflight o.writer status (sym (ap Request.method same) ∙ options)))
            (λ q e.
              let (unchanged, unsent, unwritten, other) = cors-pass allowed r1 a w1 q sent e in
              subst (λ b. P (handle env (env.route q) q b o.writer))
                (sym (cors-state allowed r1 a w1))
                (subst (λ x. P (handle env (env.route x) x a o.writer)) (sym (unchanged ∙ same))
                  (routed i o.writer unsent (unwritten ∙ blank)
                    (λ p. other (ap Request.method same ∙ p)))))

  clash : (s : Option ℕ) → s ≡ some 401 → s ≢ some 200
  clash s e = λ e'. ground arith

  -- What a guarded handler that answers 200 was called with.
  guard-200 :
      (next : Handler App) (r : Request) (a : App) (w : Writer)
      → w.sent ≡ none
      → status_of (guard env next r a w).1 ≡ some 200
      → (session : Session) × IsLive (some env.config) env.now r a.sessions session
        × (guard env next r a w ≡ next (record r { session = some session }) a w)
  guard-200 next r a w fresh ok =
      by_verdict (require_auth (some env.config) env.now r a.sessions w).verdict refl
    where
      outcome : Outcome App
      outcome = on_sessions (require_auth (some env.config) env.now) r a w

      by_verdict :
          (v : Verdict)
          → (require_auth (some env.config) env.now r a.sessions w).verdict ≡ v
          → (session : Session) × IsLive (some env.config) env.now r a.sessions session
            × (guard env next r a w ≡ next (record r { session = some session }) a w)
      by_verdict answered e =
          let refused = require_auth-refused (some env.config) env.now r a.sessions w fresh e in
          let same = ap (λ (x : App × Writer). status_of x.1) (after-answered outcome next e) in
          absurd (clash _ refused (sym same ∙ ok))
      by_verdict (pass r') e =
          let (session, live, same) =
            (require_auth_iff (some env.config) env.now r r' a.sessions w).0 e in
          let (kept, clean) =
            require_auth-unchanged (some env.config) env.now r a.sessions w r' e in
          let entered = record r { session = some session } in
          let o = require_auth (some env.config) env.now r a.sessions w in
          (
            session,
            live,
            after-pass outcome next r' e
                ∙ ap (λ q. next q (record a { sessions = o.state }) o.writer) same
                ∙ ap (λ s. next entered (record a { sessions = s }) o.writer) kept
                ∙ ap (λ v. next entered a v) clean,
          )

  -- What a handler behind the guard that answers 200 was called with.
  pub record IsGuarded (next : Request → App → Writer → Writer) (r : Request) (a : App)
      (w w' : Writer) : Type 0 where
    pub session : Session
    pub given : Option Text
    pub writer : Writer
    pub live : IsLive (some env.config) env.now r a.sessions session
    pub unsent : writer.sent ≡ none
    pub blank : writer.body ≡ w.body
    pub answered : w' ≡ next (record r { request_id = given; session = some session }) a writer

  pub serve-IsGuarded :
      (next : Request → App → Writer → Writer) (route : Route) (r : Request) (a : App) (w : Writer)
      → ((r' : Request) (w' : Writer)
          → handle env route r' a w' ≡ guard env (λ q b v. (b, next q b v)) r' a w')
      → ((i : Option Text) → env.route (record r { request_id = i }) ≡ route)
      → w.sent ≡ none
      → status_of (serve env r a w).1 ≡ some 200
      → IsGuarded next r a w (serve env r a w).1
  serve-IsGuarded next route r a w guarded routed fresh =
      serve-cases (λ x. status_of x.1 ≡ some 200 → IsGuarded next r a w x.1) r a w fresh
        (λ line x h. h) (λ w' e options ok. absurd (ground arith))
        (λ i w' sent blank other.
          let r' = record r { request_id = i } in
          subst (λ x. status_of x.1 ≡ some 200 → IsGuarded next r a w x.1)
            (sym (ap (λ o. handle env o r' a w') (routed i) ∙ guarded r' w'))
            (λ ok.
              let (session, live, same) = guard-200 (λ q b v. (b, next q b v)) r' a w' sent ok in
              record {
                session = session;
                given = i;
                writer = w';
                live = record {
                  token = live.token;
                  carried = live.carried;
                  stored = live.stored;
                  fresh = live.fresh;
                };
                unsent = sent;
                blank = blank;
                answered = ap (λ (x : App × Writer). x.1) same;
              }))
