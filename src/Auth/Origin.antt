-- ===== src/Auth/Origin.antt =====
-- Where a stored session comes from: what each handler of internal/auth does to one token.
use web_mail.Base.{
  ℕ, ◌≡◌, refl, sym, ap, ◌∙◌, subst, ◌≢◌, ◌⊎◌, inl, inr, Option, none, some, List, [], ◌∷◌, ◌++◌,
  Text, codes, text_eq, text_eq_iff, text_eq_refl, trim_space, to_lower, ℤ, ◌+ℤ◌, ltb_ℤ, arith,
  true, false, Bool-cases,
}
use web_mail.Config.{Config}
use web_mail.Session.{Session, Store, find}
use web_mail.Session.Laws.{create-IsCreated, find-delete, ne-nil_of_find}
use web_mail.Http.{Request, Writer, cookie}
use web_mail.Auth.{
  LoginRequest, Credentials, as_admin, as_user, refused, session_ttl, session_cookie_name,
  new_session_cookie, login_handler, logout_handler, require_auth, admit, admit_token,
  delete_cookie,
}
use web_mail.Auth.Login.{
  Accepts, session_of, check_psk-Accepts, IsLoggedIn, login_handler-200, login_handler-status,
}

-- The session that a login request may open, by the PSK that it has.
pub record IsGranted (table : ℕ → ℕ) (cfg : Config) (now : ℤ) (req : LoginRequest)
    (session : Session) : Type 0 where
  pub lasts : session.expires_at ≡ now +ℤ session_ttl (some cfg)
  pub rule :
      ((cfg.admin_psk ≢ []) × (req.psk ≡ cfg.admin_psk) × (session.is_admin ≡ true))
      ⊎ ((cfg.normal_user_psk ≢ [])
          × (req.psk ≡ cfg.normal_user_psk)
          × (session.email ≡ to_lower table (trim_space req.email))
          × (session.email ≢ [])
          × (session.is_admin ≡ false))

session_of-IsGranted :
    (table : ℕ → ℕ) (cfg : Config) (now : ℤ) (req : LoginRequest) (c : Credentials)
    (session : Session)
    → Accepts table cfg req c
    → session_of (now +ℤ session_ttl (some cfg)) c ≡ some session
    → IsGranted table cfg now req session
session_of-IsGranted table cfg now req as_admin session a e = record {
  lasts = ground arith;
  rule = inl (a.0, a.1, ground arith);
}
session_of-IsGranted table cfg now req (as_user email) session a e =
    let same : session.email ≡ email = ground arith in
    record { lasts = ground arith; rule = inr (a.1, a.2, same ∙ a.3, rw same a.4, ground arith) }
session_of-IsGranted table cfg now req refused session a e = cc

-- What a login that puts a session under the token `u` is.
pub record IsOpening (table : ℕ → ℕ) (cfg : Config) (now : ℤ) (decoded : Option LoginRequest)
    (r : Request) (w w' : Writer) (u : Text) (session : Session) : Type 0 where
  pub req : LoginRequest
  pub post : r.method ≡ codes "POST"
  pub read : decoded ≡ some req
  pub granted : IsGranted table cfg now req session
  pub named : session.token ≡ u
  pub cookies : w'.cookies ≡ w.cookies ++ new_session_cookie (some cfg) u session.expires_at ∷ []

module _ (table : ℕ → ℕ) (cfg : Config) (now : ℤ) (random : Option (List ℕ)) (s : Store)
    (w : Writer) where
  IsLoggedIn-IsOpening :
      (req : LoginRequest) (s' : Store) (w' : Writer) (u : Text) (session : Session)
      (decoded : Option LoginRequest) (r : Request)
      → IsLoggedIn table cfg now random req s s' w w'
      → r.method ≡ codes "POST"
      → decoded ≡ some req
      → find u s' ≡ some session
      → (find u s ≡ some session) ⊎ IsOpening table cfg now decoded r w w' u session
  IsLoggedIn-IsOpening req s' w' u session decoded r done post read e =
      let made = create-IsCreated random done.session s done.named s' done.created in
      let after = made.stored u (ne-nil_of_find u session s' e) in
      let given =
        session_of-IsGranted table cfg now req _ done.session (check_psk-Accepts table cfg req)
          done.accepted in
      elim (Bool-cases (text_eq done.named.token u)) [
        | inr other ↦ inl (ground (arith, after))
        | inl same ↦
            let this : done.named ≡ session = ground (arith, after) in
            let token : done.named.token ≡ u = (text_eq_iff _ _).0 same in
            inr (
              subst (IsOpening table cfg now decoded r w w' u) this (record {
                req = req;
                post = post;
                read = read;
                granted = record {
                  lasts = made.expires_at ∙ given.lasts;
                  rule = rw (made.email, made.is_admin) given.rule;
                };
                named = token;
                cookies =
                    done.cookies
                    ∙ ap
                        (λ t.
                          w.cookies ++ new_session_cookie (some cfg) t done.named.expires_at ∷ [])
                        token;
              }))
      ]

  -- A session in the store after a request to LoginHandler was there before, or the request opened it.
  pub login_handler-IsOpening :
      (decoded : Option LoginRequest) (r : Request) (u : Text) (session : Session)
      → w.sent ≡ none
      → find u (login_handler table (some cfg) now random decoded r s w).0 ≡ some session
      → (find u s ≡ some session)
        ⊎ IsOpening table cfg now decoded r w
            (login_handler table (some cfg) now random decoded r s w).1
            u
            session
  login_handler-IsOpening decoded r u session fresh e =
      let (answered, kept) =
        login_handler-status table (some cfg) now random decoded r s w _ fresh refl in
      elim kept [
        | inr same ↦ inl (sym (ap (find u) same) ∙ e)
        | inl ok ↦
            let (req, post, read, done) =
              login_handler-200 table (some cfg) now random decoded r s w fresh
                (answered ∙ ap some ok) in
            IsLoggedIn-IsOpening req _ _ u session decoded r done post read e
      ]

find-delete_cookie :
    (carried : Option Text) (u : Text) (session : Session) (s : Store)
    → find u (delete_cookie carried s) ≡ some session
    → (find u s ≡ some session) × (carried ≢ some u)
unfolding delete_cookie
find-delete_cookie none u session s e = (e, λ p. cc)
find-delete_cookie (some t) u session s e =
    (ground (arith, find-delete t u s), λ p. ground (arith, find-delete t u s, text_eq_refl u))

-- A session in the store after a request to LogoutHandler was there before, and the request is not a
-- POST whose cookie has its token.
pub find-logout_handler :
    (cfg : Option Config) (r : Request) (u : Text) (session : Session) (s : Store) (w : Writer)
    → find u (logout_handler cfg r s w).0 ≡ some session
    → (find u s ≡ some session)
      × (r.method ≡ codes "POST" → cookie (session_cookie_name cfg) r.cookies ≢ some u)
unfolding logout_handler
find-logout_handler cfg r u session s w e = elim (Bool-cases (text_eq r.method (codes "POST"))) [
  | inl post ↦
      let (kept, other) = find-delete_cookie _ u session s (rw post at e) in (kept, λ p. other)
  | inr wrong ↦ (rw wrong at e, λ p. absurd (cc (wrong, (text_eq_iff _ _).1 p)))
]

find-admit :
    (cfg : Option Config) (now : ℤ) (found : Option Session) (r : Request) (u : Text)
    (session : Session) (s : Store) (w : Writer)
    → find u (admit cfg now found r s w).state ≡ some session
    → find u s ≡ some session
unfolding admit
find-admit cfg now none r u session s w e = e
find-admit cfg now (some x) r u session s w e = elim (Bool-cases (ltb_ℤ x.expires_at now)) [
  | inl late ↦ ground (arith, find-delete x.token u s, rw late at e)
  | inr live ↦ rw live at e
]

-- RequireAuth opens no session.
pub find-require_auth :
    (cfg : Option Config) (now : ℤ) (r : Request) (u : Text) (session : Session) (s : Store)
    (w : Writer)
    → find u (require_auth cfg now r s w).state ≡ some session
    → find u s ≡ some session
unfolding require_auth admit_token
find-require_auth cfg now r u session s w = by_token (cookie (session_cookie_name cfg) r.cookies)
  where
    by_token :
        (carried : Option Text)
        → find u (admit_token cfg now carried r s w).state ≡ some session
        → find u s ≡ some session
    by_token none e = e
    by_token (some t) e = find-admit cfg now (find t s) r u session s w e
