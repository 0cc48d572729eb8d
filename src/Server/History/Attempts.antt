-- ===== src/Server/History/Attempts.antt =====
-- How many logins a client can try, in any sequence of requests to the server.
use mathlib.Core.List.{append-nil}
use web_mail.Base.{
  ℕ, ◌+◌, ◌*◌, ◌≤◌, ◌≡◌, ◌≢◌, refl, sym, ap, subst, ◌∙◌, Bool, true, false, not, ◌&&◌, Option, none,
  some, List, [], ◌∷◌, ◌++◌, Text, text_eq, arith, ◌==◌,
}
use web_mail.Http.{Request, Writer, new_writer, status_of}
use web_mail.Middleware.RateLimit.{
  Float64, Limiter, new_rate_limiter, cleanup, allow, get_client_ip,
}
use web_mail.Middleware.RateLimit.Steps.{scale, slack, IsRounded}
use web_mail.Middleware.RateLimit.Bound.{call, tick, InOrder, one_if, admitted, admitted-le}
use web_mail.Middleware.RateLimit.Bound
use web_mail.Ingest.Handler.{State}
use web_mail.Server.{Env, App, new, serve}
use web_mail.Server.Attempts.{reaches, Moves, serve-Moves}
use web_mail.Server.History.{Event, Exchange, request, clean_login, clean_ingest, run}

abbrev was_limited : Option ℕ → Bool
was_limited none = false
was_limited (some n) = n == 429

-- The requests of a client behind the limiter that were not answered 429.
unfoldable pub attempts : Text → List Exchange → ℕ
attempts ip [] = 0
attempts ip (x ∷ past) =
    one_if (
      reaches x.env x.request
      && text_eq (get_client_ip x.request) ip
      && not (was_limited (status_of x.response)))
    + attempts ip past

-- What the limiter of /api/login was called with, in the order of the calls.
abbrev pub noted : Bool → Bound.Event → List Bound.Event
noted true e = e ∷ []
noted false e = []

unfoldable pub limiter_calls : List Event → List Bound.Event
limiter_calls [] = []
limiter_calls (request env r ∷ events) =
    limiter_calls events ++ noted (reaches env r) (call (get_client_ip r) env.instant)
limiter_calls (clean_login now ∷ events) = limiter_calls events ++ tick now ∷ []
limiter_calls (clean_ingest now ∷ events) = limiter_calls events

module _ (fl : Float64) where
  -- The limiter after such calls.
  unfoldable called : List Bound.Event → Limiter → Limiter
  called [] rl = rl
  called (tick t ∷ es) rl = called es (cleanup t rl)
  called (call j t ∷ es) rl = called es (allow fl j t rl).0

  called-tick :
      (es : List Bound.Event) (t : ℕ) (rl : Limiter)
      → called (es ++ tick t ∷ []) rl ≡ cleanup t (called es rl)
  unfolding called
  called-tick [] t rl = refl
  called-tick (tick u ∷ es) t rl = called-tick es t (cleanup u rl)
  called-tick (call j u ∷ es) t rl = called-tick es t (allow fl j u rl).0

  called-call :
      (es : List Bound.Event) (j : Text) (t : ℕ) (rl : Limiter)
      → called (es ++ call j t ∷ []) rl ≡ (allow fl j t (called es rl)).0
  unfolding called
  called-call [] j t rl = refl
  called-call (tick u ∷ es) j t rl = called-call es j t (cleanup u rl)
  called-call (call k u ∷ es) j t rl = called-call es j t (allow fl k u rl).0

  admitted-tick :
      (ip : Text) (es : List Bound.Event) (t : ℕ) (rl : Limiter)
      → admitted fl ip (es ++ tick t ∷ []) rl ≡ admitted fl ip es rl
  unfolding admitted
  admitted-tick ip [] t rl = refl
  admitted-tick ip (tick u ∷ es) t rl = admitted-tick ip es t (cleanup u rl)
  admitted-tick ip (call j u ∷ es) t rl =
      ap (λ n. one_if (text_eq j ip && (allow fl j u rl).1.allowed) + n)
        (admitted-tick ip es t (allow fl j u rl).0)

  admitted-call :
      (ip : Text) (es : List Bound.Event) (j : Text) (t : ℕ) (rl : Limiter)
      → admitted fl ip (es ++ call j t ∷ []) rl
        ≡ one_if (text_eq j ip && (allow fl j t (called es rl)).1.allowed) + admitted fl ip es rl
  unfolding admitted called
  admitted-call ip [] j t rl = refl
  admitted-call ip (tick u ∷ es) j t rl = admitted-call ip es j t (cleanup u rl)
  admitted-call ip (call k u ∷ es) j t rl =
      omega (arith, admitted-call ip es j t (allow fl k u rl).0)

  -- The limiter is where its calls took it, and let through at least what was not answered 429.
  record IsTracked (ip : Text) (rl : Limiter) (past : List Exchange) (es : List Bound.Event)
      : Type 0 where
    at : rl ≡ called es (new_rate_limiter 10)
    enough : attempts ip past ≤ admitted fl ip es (new_rate_limiter 10)

  unlimited : (o : Option ℕ) → was_limited o ≡ false → o ≢ some 429
  unlimited none e = λ p. cc
  unlimited (some n) e = λ p. ground arith

  counted-le :
      (own limited allowed : Bool) (m n : ℕ)
      → (limited ≡ false → allowed ≡ true)
      → m ≤ n
      → one_if (true && own && not limited) + m ≤ one_if (own && allowed) + n
  counted-le true false true m n h le = omega (arith, le)
  counted-le true false false m n h le = absurd (cc (h refl))
  counted-le true true allowed m n h le = ground (arith, le)
  counted-le false limited allowed m n h le = omega (arith, le)

  module _ (ip : Text) (env : Env) (r : Request) (a : App) (x : App × Writer) (past : List Exchange)
      (es : List Bound.Event) (rounding : env.float64 ≡ fl)
      (tracked : IsTracked ip a.login_limiter past es) where
    abbrev entry : Bound.Event
    entry = call (get_client_ip r) env.instant

    abbrev attempt : Bool → Bool
    attempt b = b && text_eq (get_client_ip r) ip && not (was_limited (status_of x.1))

    request-IsTracked :
        (b : Bool)
        → Moves env b r a x
        → (x.0.login_limiter ≡ called (es ++ noted b entry) (new_rate_limiter 10))
          × (one_if (attempt b) + attempts ip past
              ≤ admitted fl ip (es ++ noted b entry) (new_rate_limiter 10))
    request-IsTracked false m = rw (append-nil es) (m ∙ tracked.at, omega (arith, tracked.enough))
    request-IsTracked true m =
        let rl = called es (new_rate_limiter 10) in
        let moved =
          subst (λ (l : Limiter). x.0.login_limiter ≡ (allow fl (get_client_ip r) env.instant l).0)
            tracked.at
            (subst
              (λ (f : Float64).
                x.0.login_limiter ≡ (allow f (get_client_ip r) env.instant a.login_limiter).0)
              rounding m.moved) in
        let passed = λ (other : status_of x.1 ≢ some 429).
          subst (λ (l : Limiter). (allow fl (get_client_ip r) env.instant l).1.allowed ≡ true)
            tracked.at
            (subst
              (λ (f : Float64).
                (allow f (get_client_ip r) env.instant a.login_limiter).1.allowed ≡ true)
              rounding (m.passed other)) in
        (
          moved ∙ sym (called-call es (get_client_ip r) env.instant (new_rate_limiter 10)),
          rw (admitted-call ip es (get_client_ip r) env.instant (new_rate_limiter 10)) (
              counted-le (text_eq (get_client_ip r) ip) (was_limited (status_of x.1))
                (allow fl (get_client_ip r) env.instant rl).1.allowed (attempts ip past)
                (admitted fl ip es (new_rate_limiter 10))
                (λ e. passed (unlimited (status_of x.1) e)) tracked.enough),
        )

  -- Every request is rounded alike, and chi finds its route whatever the request's id is.
  abbrev pub AreAlike : List Event → Type 1
  AreAlike [] = Unit
  AreAlike (request env r ∷ events) =
      (env.float64 ≡ fl)
      × ((i : Option Text) → env.route (record r { request_id = i }) ≡ env.route r)
      × AreAlike events
  AreAlike (clean_login now ∷ events) = AreAlike events
  AreAlike (clean_ingest now ∷ events) = AreAlike events

  run-IsTracked :
      (ip : Text) (mail : State) (events : List Event)
      → AreAlike events
      → IsTracked ip (run mail events).0.login_limiter (run mail events).1 (limiter_calls events)
  unfolding run new attempts limiter_calls called admitted
  run-IsTracked ip mail [] alike = record { at = refl; enough = omega arith }
  run-IsTracked ip mail (request env r ∷ events) (rounding, routed, alike) =
      let (a, past) = run mail events in
      let (at, enough) =
        request-IsTracked ip env r a (serve env r a new_writer) past (limiter_calls events) rounding
          (run-IsTracked ip mail events alike) (reaches env r)
          (serve-Moves env r a new_writer refl routed) in
      record { at = at; enough = enough }
  run-IsTracked ip mail (clean_login now ∷ events) alike =
      let before = run-IsTracked ip mail events alike in
      let es = limiter_calls events in
      record {
        at = ap (cleanup now) before.at ∙ sym (called-tick es now (new_rate_limiter 10));
        enough = rw (admitted-tick ip es now (new_rate_limiter 10)) before.enough;
      }
  run-IsTracked ip mail (clean_ingest now ∷ events) alike =
      let before = run-IsTracked ip mail events alike in
      record { at = before.at; enough = before.enough }

  -- From the start of the server, the requests of one client below /api/login, with another method
  -- than OPTIONS, that are not answered 429 number at most ten, and ten for every minute that passed
  -- since the instant `c`, up to a part in 2^50 for the rounding, if the instants of the requests are
  -- in order. A client is what getClientIP makes of a request, which the request itself can choose
  -- with X-Forwarded-For.
  pub attempts-le :
      (ip : Text) (c last : ℕ) (mail : State) (events : List Event)
      → IsRounded fl
      → AreAlike events
      → InOrder c (limiter_calls events) last
      → attempts ip (run mail events).1 * scale + c * 10 * slack ≤ 10 * scale + last * 10 * slack
  attempts-le ip c last mail events rounded alike ordered =
      let tracked = run-IsTracked ip mail events alike in
      let bound = admitted-le fl ip 10 c last (limiter_calls events) rounded ordered in
      omega (arith, tracked.enough, bound)
