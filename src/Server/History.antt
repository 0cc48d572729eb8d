-- ===== src/Server/History.antt =====
-- Any sequence of requests to the router, one after another, with the sweeps of its two rate
-- limiters between them; and what the responses were.
pub mod Privacy
pub mod Files
pub mod Attempts
use web_mail.Base.{
  ℕ, ◌≡◌, refl, sym, ap, subst, ◌∙◌, ◌⊎◌, inl, inr, none, some, List, [], ◌∷◌, Text, map,
}
use web_mail.Session.{Session, new_store, find}
use web_mail.Session.Laws.{find-new_store}
use web_mail.Http.{Request, Writer, new_writer}
use web_mail.Http.Response.{Responds}
use web_mail.Middleware.{LogLine, framed}
use web_mail.Middleware.RateLimit.{cleanup}
use web_mail.Ingest.Handler.{State}
use web_mail.Server.{Env, App, new, serve}
use web_mail.Server.Responses.{answer, line_of, serve-log}
use web_mail.Server.Sessions.{IsLogin, IsLogout, serve-Follows}

-- A request with what the environment gives to it, or a sweep at an instant.
pub data Event : Type 1 where
  request : Env → Request → Event
  clean_login clean_ingest : ℕ → Event

pub record Exchange : Type 1 where
  pub env : Env
  pub request : Request
  pub response : Writer

-- The server after such events, and the exchanges, with the last one first in both lists.
unfoldable pub run : State → List Event → App × List Exchange
unfolding new cleanup
run mail [] = (new mail, [])
run mail (request env r ∷ events) =
    let (a, past) = run mail events in
    let (a', w) = serve env r a new_writer in
    (a', record { env = env; request = r; response = w } ∷ past)
run mail (clean_login now ∷ events) =
    let (a, past) = run mail events in
    (record a { login_limiter = cleanup now a.login_limiter }, past)
run mail (clean_ingest now ∷ events) =
    let (a, past) = run mail events in
    (record a { ingest_limiter = cleanup now a.ingest_limiter }, past)

-- One of the exchanges is a login that was granted the session and got its cookie, and no later one
-- is a logout with that cookie.
abbrev pub IsOpened : Session → List Exchange → Type 0
IsOpened session [] = ⊥
IsOpened session (x ∷ past) =
    IsLogin x.env x.request x.response session
    ⊎ ((¬ IsLogout x.env x.request session.token) × IsOpened session past)

-- After any such events every stored session stands under its own token; it was opened by a login
-- with an accepted PSK, whose answer had its cookie, and no logout with that cookie came after that.
pub run-IsOpened :
    (mail : State) (events : List Event) (u : Text) (session : Session)
    → find u (run mail events).0.sessions ≡ some session
    → (session.token ≡ u) × IsOpened session (run mail events).1
unfolding run
run-IsOpened mail [] u session e = absurd (cc (find-new_store u))
run-IsOpened mail (request env r ∷ events) u session e =
    let (a, past) = run mail events in
    elim (serve-Follows env u session r a new_writer refl e) [
      | inr (opened, named) ↦ (named, inl opened)
      | inl (old, open_) ↦
          let (named, before) = run-IsOpened mail events u session old in
          (named, inr (subst (λ t. ¬ IsLogout env r t) (sym named) open_, before))
    ]
run-IsOpened mail (clean_login now ∷ events) u session e = run-IsOpened mail events u session e
run-IsOpened mail (clean_ingest now ∷ events) u session e = run-IsOpened mail events u session e

-- What chi and the file server answer to each request leaves the headers of the router as they are.
abbrev pub ArePolite : List Event → Type 0
ArePolite [] = Unit
ArePolite (request env r ∷ events) =
    ((id : Text) (q : Request) (w : Writer)
      → w.sent ≡ none
      → Responds (framed id) w (env.foreign q w))
    × ArePolite events
ArePolite (clean_login now ∷ events) = ArePolite events
ArePolite (clean_ingest now ∷ events) = ArePolite events

abbrev pub line_about : Exchange → LogLine
line_about x = line_of x.request (answer x.response).status

-- The access log is one line for each exchange, in their order, with the status that the client got,
-- if chi and the file server leave the headers of the router as they are and call WriteHeader once
-- at most.
pub run-log :
    (mail : State) (events : List Event)
    → ArePolite events
    → (run mail events).0.log ≡ map line_about (run mail events).1
unfolding run new
run-log mail [] polite = refl
run-log mail (request env r ∷ events) polite =
    let a = (run mail events).0 in
    serve-log env polite.0 r a new_writer refl
    ∙ ap (λ lines. line_of r (answer (serve env r a new_writer).1).status ∷ lines)
        (run-log mail events polite.1)
run-log mail (clean_login now ∷ events) polite = run-log mail events polite
run-log mail (clean_ingest now ∷ events) polite = run-log mail events polite
