-- ===== src/Auth/Login.antt =====
-- LoginHandler: who is let in, and what every answer is.
use web_mail.Base.{
  ℕ, ◌≡◌, refl, ◌≢◌, ◌⊎◌, Option, none, some, List, codes, text_eq, text_eq_iff, Bool-cases,
  if◌then◌else◌, inl, inr, ℤ, ◌+ℤ◌, arith, true, false, [], ◌∷◌, ◌++◌, is_empty_iff, trim_space,
  to_lower,
}
use web_mail.Config.{Config}
use web_mail.Session.{Session, Store, create}
use web_mail.Http.{Request, Writer, status_of}
use web_mail.Auth.{
  LoginRequest, Credentials, as_admin, as_user, refused, check_psk, config_or_zero, empty_session,
  session_ttl, new_session_cookie, finish_login, start_session, login_as, login_with, login_handler,
}

-- The rule of the login, for each kind of credentials.
abbrev pub Accepts : (ℕ → ℕ) → Config → LoginRequest → Credentials → Type 0
Accepts table cfg req as_admin = (cfg.admin_psk ≢ []) × (req.psk ≡ cfg.admin_psk)
Accepts table cfg req (as_user email) =
    (¬ ((cfg.admin_psk ≢ []) × (req.psk ≡ cfg.admin_psk)))
    × (cfg.normal_user_psk ≢ [])
    × (req.psk ≡ cfg.normal_user_psk)
    × (email ≡ to_lower table (trim_space req.email))
    × (email ≢ [])
Accepts table cfg req refused =
    (¬ ((cfg.admin_psk ≢ []) × (req.psk ≡ cfg.admin_psk)))
    × (¬ (
        (cfg.normal_user_psk ≢ [])
        × (req.psk ≡ cfg.normal_user_psk)
        × (to_lower table (trim_space req.email) ≢ [])))

-- The switch on the PSK decides by that rule.
pub check_psk-Accepts :
    (table : ℕ → ℕ) (cfg : Config) (req : LoginRequest)
    → Accepts table cfg req (check_psk table cfg req)
unfolding check_psk
check_psk-Accepts table cfg req = ground (
  arith,
  text_eq_iff req.psk cfg.admin_psk,
  text_eq_iff req.psk cfg.normal_user_psk,
  is_empty_iff cfg.admin_psk,
  is_empty_iff cfg.normal_user_psk,
  is_empty_iff (to_lower table (trim_space req.email)),
)

-- The session that credentials stand for, before it has a token.
abbrev pub session_of : ℤ → Credentials → Option Session
session_of expires_at as_admin =
    some (record { email = codes "admin"; is_admin = true; expires_at = expires_at; token = [] })
session_of expires_at (as_user email) =
    some (record { email = email; is_admin = false; expires_at = expires_at; token = [] })
session_of expires_at refused = none

-- What a login that is answered with status 200 did.
pub record IsLoggedIn (table : ℕ → ℕ) (cfg : Config) (now : ℤ) (random : Option (List ℕ))
    (req : LoginRequest) (s s' : Store) (w w' : Writer) : Type 0 where
  pub session : Session
  pub named : Session
  pub accepted : session_of (now +ℤ session_ttl (some cfg)) (check_psk table cfg req) ≡ some session
  pub created : create random session s ≡ some (named, s')
  pub cookies :
      w'.cookies ≡ w.cookies ++ new_session_cookie (some cfg) named.token named.expires_at ∷ []

module _ (table : ℕ → ℕ) (cfg : Config) (now : ℤ) (random : Option (List ℕ)) (s : Store)
    (w : Writer) (fresh : w.sent ≡ none) where
  finish_login-200 :
      (session : Session) (made : Option (Session × Store))
      → status_of (finish_login (some cfg) now session made s w).1 ≡ some 200
      → (named : Session) × (s' : Store) × (made ≡ some (named, s'))
        × ((finish_login (some cfg) now session made s w).0 ≡ s')
        × ((finish_login (some cfg) now session made s w).1.cookies
            ≡ w.cookies ++ new_session_cookie (some cfg) named.token named.expires_at ∷ [])
  unfolding finish_login
  finish_login-200 session none e = ground arith
  finish_login-200 session (some (named, s')) e = (named, s', refl, refl, refl)

  start_session-200 :
      (req : LoginRequest) (session : Session)
      → session_of (now +ℤ session_ttl (some cfg)) (check_psk table cfg req)
        ≡ some (record session { expires_at = now +ℤ session_ttl (some cfg) })
      → status_of (start_session (some cfg) now random session s w).1 ≡ some 200
      → IsLoggedIn table cfg now random req s
          (start_session (some cfg) now random session s w).0
          w
          (start_session (some cfg) now random session s w).1
  unfolding start_session
  start_session-200 req session accepted e =
      let dated = record session { expires_at = now +ℤ session_ttl (some cfg) } in
      let (named, s', made, kept, sent) = finish_login-200 dated (create random dated s) e in
      record {
        session = dated;
        named = named;
        accepted = accepted;
        created = rw kept made;
        cookies = sent;
      }

  login_as-200 :
      (req : LoginRequest) (c : Credentials)
      → check_psk table cfg req ≡ c
      → status_of (login_as (some cfg) now random c s w).1 ≡ some 200
      → IsLoggedIn table cfg now random req s
          (login_as (some cfg) now random c s w).0
          w
          (login_as (some cfg) now random c s w).1
  unfolding login_as
  login_as-200 req as_admin same e =
      start_session-200 req (record empty_session { email = codes "admin"; is_admin = true })
        (rw same) e
  login_as-200 req (as_user email) same e =
      start_session-200 req (record empty_session { email = email }) (rw same) e
  login_as-200 req refused same e = absurd (ground arith)

  login_with-200 :
      (decoded : Option LoginRequest)
      → status_of (login_with table cfg now random decoded s w).1 ≡ some 200
      → (req : LoginRequest) × (decoded ≡ some req)
        × IsLoggedIn table cfg now random req s
            (login_with table cfg now random decoded s w).0
            w
            (login_with table cfg now random decoded s w).1
  unfolding login_with
  login_with-200 none e = absurd (ground arith)
  login_with-200 (some req) e = (req, refl, login_as-200 req _ refl e)

-- Status 200 is answered only to a POST whose body was decoded, whose PSK the rule accepts, and for
-- which the session was stored; the answer's new cookie is the session cookie of that session.
pub login_handler-200 :
    (table : ℕ → ℕ) (cfg : Option Config) (now : ℤ) (random : Option (List ℕ))
    (decoded : Option LoginRequest) (r : Request) (s : Store) (w : Writer)
    → w.sent ≡ none
    → status_of (login_handler table cfg now random decoded r s w).1 ≡ some 200
    → (req : LoginRequest) × (r.method ≡ codes "POST")
      × (decoded ≡ some req)
      × IsLoggedIn table
          (config_or_zero cfg)
          now
          random
          req
          s
          (login_handler table cfg now random decoded r s w).0
          w
          (login_handler table cfg now random decoded r s w).1
unfolding login_handler
login_handler-200 table cfg now random decoded r s w fresh e =
    elim (Bool-cases (text_eq r.method (codes "POST"))) [
      | inl post ↦
          let (req, read, done) =
            login_with-200 table (config_or_zero cfg) now random s w fresh decoded (rw post at e) in
          (req, (text_eq_iff _ _).0 post, read, rw post done)
      | inr other ↦ absurd (ground (arith, rw other at e))
    ]

-- The status of an answer to a POST: 401 for a refusal, 500 without random bytes.
abbrev answer : Credentials → Option (List ℕ) → ℕ
answer refused random = 401
answer c none = 500
answer c (some drawn) = 200

abbrev pub post_status : (ℕ → ℕ) → Config → Option (List ℕ) → Option LoginRequest → ℕ
post_status table cfg random none = 400
post_status table cfg random (some req) = answer (check_psk table cfg req) random

login_as-status :
    (cfg : Option Config) (now : ℤ) (random : Option (List ℕ)) (c : Credentials) (s : Store)
    (w : Writer)
    → w.sent ≡ none
    → (status_of (login_as cfg now random c s w).1 ≡ some (answer c random))
      × ((answer c random ≡ 200) ⊎ ((login_as cfg now random c s w).0 ≡ s))
unfolding login_as
login_as-status cfg now none as_admin s w fresh = (ground arith, inr (ground arith))
login_as-status cfg now (some b) as_admin s w fresh = (ground arith, inl refl)
login_as-status cfg now none (as_user email) s w fresh = (ground arith, inr (ground arith))
login_as-status cfg now (some b) (as_user email) s w fresh = (ground arith, inl refl)
login_as-status cfg now none refused s w fresh = (ground arith, inr refl)
login_as-status cfg now (some b) refused s w fresh = (ground arith, inr refl)

login_with-status :
    (table : ℕ → ℕ) (cfg : Config) (now : ℤ) (random : Option (List ℕ))
    (decoded : Option LoginRequest) (s : Store) (w : Writer)
    → w.sent ≡ none
    → (status_of (login_with table cfg now random decoded s w).1
        ≡ some (post_status table cfg random decoded))
      × ((post_status table cfg random decoded ≡ 200)
          ⊎ ((login_with table cfg now random decoded s w).0 ≡ s))
unfolding login_with
login_with-status table cfg now random none s w fresh = (ground arith, inr refl)
login_with-status table cfg now random (some req) s w fresh =
    login_as-status (some cfg) now random (check_psk table cfg req) s w fresh

-- The status of every answer that a fresh writer gets: 405 but for a POST, then 400 for a body that
-- is not decoded, 401 for refused credentials, 500 if there are no random bytes, and 200 in every
-- other case. The status is 200 or the store is left as it was.
pub login_handler-status :
    (table : ℕ → ℕ) (cfg : Option Config) (now : ℤ) (random : Option (List ℕ))
    (decoded : Option LoginRequest) (r : Request) (s : Store) (w : Writer) (status : ℕ)
    → w.sent ≡ none
    → status ≡ (
        if text_eq r.method (codes "POST")
        then post_status table (config_or_zero cfg) random decoded
        else 405)
    → (status_of (login_handler table cfg now random decoded r s w).1 ≡ some status)
      × ((status ≡ 200) ⊎ ((login_handler table cfg now random decoded r s w).0 ≡ s))
unfolding login_handler
login_handler-status table cfg now random decoded r s w status fresh e =
    ground (arith, login_with-status table (config_or_zero cfg) now random decoded s w fresh)
