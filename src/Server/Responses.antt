-- ===== src/Server/Responses.antt =====
-- The responses of the router: its headers, and what the access log says of them.
use web_mail.Base.{ℕ, ◌≡◌, refl, ap, ◌∙◌, sym, subst, Option, none, some, ◌∷◌, Text}
use web_mail.Http.{header_get, recorded_status, Request, Writer, Handler, Head}
use web_mail.Http.Response.{
  Agrees, HasSent, Kept, Responds, HasAll, IsFramed, IsRecorded, Responds-IsFramed,
  Responds-IsRecorded,
}
use web_mail.Middleware.{
  LogLine, framed, request_id_of, request_id, security_headers, request_logging, cors,
}
use web_mail.Server.{Env, App, wrap, after, dispatch, logged, serve}
use web_mail.Server.Quiet.{AreQuiet, inner-AreQuiet}

security_headers-HasAll :
    {S : Type 0} (request : Text) (r : Request) (s : S) (w : Writer)
    → header_get "X-Request-ID" w.headers ≡ request
    → HasAll (framed request) (security_headers r s w).writer.headers
unfolding security_headers header_get
security_headers-HasAll request r s w e = (e, (refl, (refl, (refl, (refl, (refl, tt))))))

-- What the client gets: 200 with the headers set so far if the handler sent nothing.
abbrev pub answer : Writer → Head
answer w = elim w.sent [
  | none ↦ record { status = 200; headers = w.headers; cookies = w.cookies }
  | some h ↦ h
]

answer-HasAll : (ks : Kept) (w : Writer) → IsFramed ks w → HasAll ks (answer w).headers
answer-HasAll ks w (kept, sent) = by_sent w.sent refl
  where
    by_sent : (o : Option Head) → w.sent ≡ o → HasAll ks (answer w).headers
    by_sent none e = rw e kept
    by_sent (some h) e = rw e (subst (HasSent ks) e sent)

answer-recorded : (w : Writer) → IsRecorded w → recorded_status w.called ≡ (answer w).status
answer-recorded w recorded = by_sent w.sent refl
  where
    by_sent : (o : Option Head) → w.sent ≡ o → recorded_status w.called ≡ (answer w).status
    by_sent none e = rw e (rw (subst (λ o. Agrees o w.called) e recorded) refl)
    by_sent (some h) e = rw e (sym (subst (λ o. Agrees o w.called) e recorded))

abbrev pub line_of : Request → ℕ → LogLine
line_of r status = record {
  method = r.method;
  path = r.path;
  status = status;
  remote_addr = r.remote_addr;
}

record IsReported (request : Text) (r : Request) (a : App) (x : App × Writer) : Type 0 where
  complete : HasAll (framed request) (answer x.1).headers
  reported : x.0.log ≡ line_of r (answer x.1).status ∷ a.log

logged-IsReported :
    {request : Text} (next : Handler App)
    → AreQuiet request next
    → (r : Request) (a : App) (w : Writer) → w.sent ≡ none
    → HasAll (framed request) w.headers
    → IsReported request r a (logged next r a w)
unfolding logged request_logging
logged-IsReported {request} next quiet r a w fresh kept =
    let x = next r a (record w { called = none }) in
    let q = quiet r a (record w { called = none }) fresh in
    record {
      complete =
          answer-HasAll (framed request) x.1 (Responds-IsFramed q.responds (kept, rw fresh tt));
      reported =
          ap (λ n. line_of r n ∷ x.0.log)
            (answer-recorded x.1 (Responds-IsRecorded q.responds (rw fresh refl)))
          ∙ ap (λ lines. line_of r (answer x.1).status ∷ lines) q.unlogged;
    }

module _ (env : Env) (request : Text)
    (polite : (r : Request) (w : Writer)
      → w.sent ≡ none
      → Responds (framed request) w (env.foreign r w)) where
  served-IsReported :
      (r : Request) (a : App) (w : Writer)
      → w.sent ≡ none
      → request ≡ request_id_of env.random_id (header_get "X-Request-ID" r.headers)
      → IsReported request r a (serve env r a w)
  unfolding serve security_headers request_id header_get after
  served-IsReported r a w fresh e =
      let o = request_id "X-Request-ID" env.random_id r a w in
      through _ (security_headers r a o.writer).writer fresh
        (security_headers-HasAll request r a o.writer (sym e))
    where
      through :
          (i : Option Text) (v : Writer)
          → v.sent ≡ none
          → HasAll (framed request) v.headers
          → IsReported request r a (
              logged
                (wrap (cors env.config.public_base_url) (dispatch env))
                (record r { request_id = i })
                a
                v)
      through i v sent kept =
          let reported =
            logged-IsReported _ (inner-AreQuiet env request polite) (record r { request_id = i }) a
              v sent kept in
          record { complete = reported.complete; reported = reported.reported }

module _ (env : Env)
    -- what chi and the file server answer leaves those headers as they are
    (polite : (request : Text) (r : Request) (w : Writer)
      → w.sent ≡ none
      → Responds (framed request) w (env.foreign r w)) where
  abbrev id_of : Request → Text
  id_of r = request_id_of env.random_id (header_get "X-Request-ID" r.headers)

  -- Every response of the router has the five headers of SecurityHeaders with their values, and the
  -- id of its request, which is the one that the request has or a new one, as they are sent: those of
  -- the errors, of the middlewares and of preflights too. `polite` is that chi and the file server
  -- answer by the steps of `Responds`: they leave these headers as they are, and call WriteHeader once
  -- at most.
  pub serve-HasAll :
      (r : Request) (a : App) (w : Writer)
      → w.sent ≡ none
      → HasAll
          (framed (request_id_of env.random_id (header_get "X-Request-ID" r.headers)))
          (answer (serve env r a w).1).headers
  serve-HasAll r a w fresh =
      (served-IsReported env (id_of r) (polite (id_of r)) r a w fresh refl).complete

  -- Each request adds one line to the access log, with its method, path and address, and with the
  -- status that the client gets. `polite` is as above.
  pub serve-log :
      (r : Request) (a : App) (w : Writer)
      → w.sent ≡ none
      → (serve env r a w).0.log ≡ line_of r (answer (serve env r a w).1).status ∷ a.log
  serve-log r a w fresh =
      (served-IsReported env (id_of r) (polite (id_of r)) r a w fresh refl).reported
