-- ===== src/Middleware/Responses.antt =====
-- The middlewares and the writers of the handlers respect the headers of SecurityHeaders.
use web_mail.Base.{
  ℕ, String, ◌≡◌, refl, Bool, true, false, none, List, Text, codes, text_eq, ℤ, if◌then◌else◌,
  ltb_ℤ, not, ◌&&◌, is_empty,
}
use web_mail.Http.{Writer, Value, Request, write_json, http_error, header_get}
use web_mail.Http.Response.{Responds, here, header, set_status, content, IsPolite, if-IsPolite}
use web_mail.Middleware.{framed, allow_origin, cors, max_body_size, effective_limit}
use web_mail.Middleware.RateLimit.{
  Float64, Limiter, rate_limit, allow, too_many, limit_headers, get_client_ip,
}

module _ {request : Text} {w v : Writer} where
  pub write_json-Responds :
      (status : ℕ) (payload : List (String × Value))
      → v.sent ≡ none
      → Responds (framed request) w v
      → Responds (framed request) w (write_json status payload v)
  unfolding write_json text_eq
  write_json-Responds status payload fresh p =
      content _ (set_status status fresh (header "Content-Type" (codes "application/json") refl p))

  pub http_error-Responds :
      (status : ℕ) (message : String)
      → v.sent ≡ none
      → Responds (framed request) w v
      → Responds (framed request) w (http_error status message v)
  unfolding http_error text_eq
  http_error-Responds status message fresh p = content _ (
      set_status status fresh (
        header "X-Content-Type-Options" (codes "nosniff") refl
          (header "Content-Type" (codes "text/plain; charset=utf-8") refl p)))

module _ {request : Text} {S : Type 0} (r : Request) (s : S) (w : Writer)
    (fresh : w.sent ≡ none) where
  pub max_body_size-IsPolite : (n : ℤ) → IsPolite (framed request) w (max_body_size n r s w)
  unfolding max_body_size text_eq
  max_body_size-IsPolite n =
      if-IsPolite (ltb_ℤ (effective_limit n) r.content_length) _ _
        (record {
          responds =
              content _
                (set_status 413 fresh (header "Content-Type" (codes "application/json") refl here));
          unsent = λ r' e. cc;
        })
        (record { responds = here; unsent = λ r' e. fresh })

  allow_origin-Responds :
      (test : Bool) (allowed : Text)
      → Responds (framed request) w (if test then allow_origin allowed w else w)
        × ((if test then allow_origin allowed w else w).sent ≡ none)
  unfolding text_eq
  allow_origin-Responds false allowed = (here, fresh)
  allow_origin-Responds true allowed = (
    header _ _ refl (header _ _ refl (header _ _ refl (header _ _ refl (header _ _ refl here)))),
    fresh,
  )

  pub cors-IsPolite : (allowed : Text) → IsPolite (framed request) w (cors allowed r s w)
  unfolding cors
  cors-IsPolite allowed =
      let origin = header_get "Origin" r.headers in
      let (responds, unsent) =
        allow_origin-Responds (not (is_empty origin) && text_eq origin allowed) allowed in
      if-IsPolite (text_eq r.method (codes "OPTIONS")) _ _
        (record { responds = set_status 204 unsent responds; unsent = λ r' e. cc })
        (record { responds = responds; unsent = λ r' e. unsent })

module _ {request : Text} (fl : Float64) (now : ℕ) (r : Request) (rl : Limiter) (w : Writer)
    (fresh : w.sent ≡ none) where
  pub rate_limit-IsPolite : IsPolite (framed request) w (rate_limit fl now r rl w)
  unfolding rate_limit too_many limit_headers text_eq
  rate_limit-IsPolite =
      let limited = header _ _ refl (header _ _ refl (header _ _ refl here)) in
      if-IsPolite (allow fl (get_client_ip r) now rl).1.allowed _ _
        (record { responds = limited; unsent = λ r' e. fresh })
        (record {
          responds = content _ (
              set_status 429 fresh (header "Content-Type" (codes "application/json") refl limited));
          unsent = λ r' e. cc;
        })
