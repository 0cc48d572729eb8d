-- ===== src/Auth/History.antt =====
-- The store after any sequence of authentication requests, whatever they hold and in any order.
use web_mail.Base.{
  ℕ, ◌≡◌, ◌≢◌, Option, none, some, List, Text, codes, text_eq, text_eq_iff, ℤ, ◌+ℤ◌, ltb_ℤ, arith,
  true, false, [], Bool-cases, Option-cases, inl, inr,
}
use web_mail.Config.{Config}
use web_mail.Session.{Session, Store, new_store, create, find, delete}
use web_mail.Session.Laws.{create-IsCreated, find-delete, find-new_store, ne-nil_of_find}
use web_mail.Http.{Request, Writer}
use web_mail.Auth.{
  empty_session, LoginRequest, Credentials, as_admin, as_user, refused, session_ttl, finish_login,
  start_session, login_as, login_with, login_handler, require_auth, admit, admit_token,
  logout_handler, delete_cookie,
}
use web_mail.Auth.Login.{Accepts, check_psk-Accepts}

-- A stored session is one that the login rule allows, under its own token.
pub record IsGenuine (cfg : Config) (u : Text) (session : Session) : Type 0 where
  pub token : session.token ≡ u
  pub admin : session.is_admin ≡ true → cfg.admin_psk ≢ []
  pub user : session.is_admin ≡ false → (cfg.normal_user_psk ≢ []) × (session.email ≢ [])

pub record IsSound (cfg : Config) (s : Store) : Type 0 where
  pub at : (u : Text) (session : Session) → find u s ≡ some session → IsGenuine cfg u session

-- One request that the authentication code handles, with the clock, the random bytes and the
-- decoded body that it meets.
pub data AuthStep (table : ℕ → ℕ) (cfg : Config) (s s' : Store) : Type 0 where
  login :
      (now : ℤ) (random : Option (List ℕ)) (decoded : Option LoginRequest) (r : Request)
      (w : Writer)
      → s' ≡ (login_handler table (some cfg) now random decoded r s w).0
      → AuthStep table cfg s s'
  logout :
      (r : Request) (w : Writer)
      → s' ≡ (logout_handler (some cfg) r s w).0
      → AuthStep table cfg s s'
  access :
      (now : ℤ) (r : Request) (w : Writer)
      → s' ≡ (require_auth (some cfg) now r s w).state
      → AuthStep table cfg s s'

pub data Reach (table : ℕ → ℕ) (cfg : Config) : Store → Type 0 where
  start : Reach table cfg new_store
  next : {s s' : Store} → Reach table cfg s → AuthStep table cfg s s' → Reach table cfg s'

new_store-IsSound : (cfg : Config) → IsSound cfg new_store
new_store-IsSound cfg = record { at = λ u session e. absurd (cc (find-new_store u)) }

delete-IsSound : (cfg : Config) (t : Text) (s : Store) → IsSound cfg s → IsSound cfg (delete t s)
delete-IsSound cfg t s h = record {
  at = λ u session e. h.at u session (ground (arith, find-delete t u s));
}

delete_cookie-IsSound :
    (cfg : Config) (t : Option Text) (s : Store) → IsSound cfg s → IsSound cfg (delete_cookie t s)
unfolding delete_cookie
delete_cookie-IsSound cfg none s h = h
delete_cookie-IsSound cfg (some t) s h = delete-IsSound cfg t s h

logout-IsSound :
    (cfg : Config) (r : Request) (s : Store) (w : Writer)
    → IsSound cfg s
    → IsSound cfg (logout_handler (some cfg) r s w).0
unfolding logout_handler
logout-IsSound cfg r s w h = elim (Bool-cases (text_eq r.method (codes "POST"))) [
  | inl e ↦ rw e (delete_cookie-IsSound cfg _ s h)
  | inr e ↦ rw e h
]

admit-IsSound :
    (cfg : Config) (now : ℤ) (found : Option Session) (r : Request) (s : Store) (w : Writer)
    → IsSound cfg s
    → IsSound cfg (admit (some cfg) now found r s w).state
unfolding admit
admit-IsSound cfg now none r s w h = h
admit-IsSound cfg now (some session) r s w h = elim (Bool-cases (ltb_ℤ session.expires_at now)) [
  | inl e ↦ rw e (delete-IsSound cfg session.token s h)
  | inr e ↦ rw e h
]

access-IsSound :
    (cfg : Config) (now : ℤ) (carried : Option Text) (r : Request) (s : Store) (w : Writer)
    → IsSound cfg s
    → IsSound cfg (admit_token (some cfg) now carried r s w).state
unfolding admit_token
access-IsSound cfg now none r s w h = h
access-IsSound cfg now (some token) r s w h = admit-IsSound cfg now (find token s) r s w h

-- The sessions that credentials may be given.
abbrev IsAllowed : Config → Session → Type 0
IsAllowed cfg session =
    (session.is_admin ≡ true → cfg.admin_psk ≢ [])
    × (session.is_admin ≡ false → (cfg.normal_user_psk ≢ []) × (session.email ≢ []))

create-IsSound :
    (cfg : Config) (random : Option (List ℕ)) (session named : Session) (s s' : Store)
    → IsAllowed cfg session
    → create random session s ≡ some (named, s')
    → IsSound cfg s
    → IsSound cfg s'
create-IsSound cfg random session named s s' allowed e h =
    let made = create-IsCreated random session s named s' e in
    record {
      at = λ u x e'.
          let after = made.stored u (ne-nil_of_find u x s' e') in
          elim (Bool-cases (text_eq named.token u)) [
            | inl same ↦
                let this : named ≡ x = ground (arith, after) in
                rw (← this) (record {
                  token = (text_eq_iff named.token u).0 same;
                  admin = λ a. allowed.0 (cc (made.is_admin));
                  user = λ a. (
                    (allowed.1 (cc (made.is_admin))).0,
                    rw made.email (allowed.1 (cc (made.is_admin))).1,
                  );
                })
            | inr other ↦ h.at u x (ground (arith, after))
          ];
    }

start-IsSound :
    (cfg : Config) (now : ℤ) (random : Option (List ℕ)) (session : Session) (s : Store) (w : Writer)
    → IsAllowed cfg session
    → IsSound cfg s
    → IsSound cfg (start_session (some cfg) now random session s w).0
unfolding start_session finish_login
start-IsSound cfg now random session s w allowed h =
    let dated = record session { expires_at = now +ℤ session_ttl (some cfg) } in
    elim (Option-cases (create random dated s)) [
      | inl e ↦ rw e h
      | inr ((named, s'), e) ↦ rw e (create-IsSound cfg random dated named s s' allowed e h)
    ]

login_as-IsSound :
    (table : ℕ → ℕ) (cfg : Config) (now : ℤ) (random : Option (List ℕ)) (req : LoginRequest)
    (c : Credentials) (s : Store) (w : Writer)
    → Accepts table cfg req c
    → IsSound cfg s
    → IsSound cfg (login_as (some cfg) now random c s w).0
unfolding login_as
login_as-IsSound table cfg now random req as_admin s w a h =
    start-IsSound cfg now random (record empty_session { email = codes "admin"; is_admin = true }) s
      w (λ _. a.0, λ e. cc) h
login_as-IsSound table cfg now random req (as_user email) s w a h =
    start-IsSound cfg now random (record empty_session { email = email }) s w
      (λ e. cc, λ _. (a.1, a.4)) h
login_as-IsSound table cfg now random req refused s w a h = h

login-IsSound :
    (table : ℕ → ℕ) (cfg : Config) (now : ℤ) (random : Option (List ℕ))
    (decoded : Option LoginRequest) (s : Store) (w : Writer)
    → IsSound cfg s
    → IsSound cfg (login_with table cfg now random decoded s w).0
unfolding login_with
login-IsSound table cfg now random none s w h = h
login-IsSound table cfg now random (some req) s w h =
    login_as-IsSound table cfg now random req _ s w (check_psk-Accepts table cfg req) h

step-IsSound :
    {table : ℕ → ℕ} {cfg : Config} {s s' : Store}
    → AuthStep table cfg s s'
    → IsSound cfg s
    → IsSound cfg s'
unfolding login_handler require_auth
step-IsSound {table} {cfg} {s} (login now random decoded r w e) h =
    rw e (elim (Bool-cases (text_eq r.method (codes "POST"))) [
      | inl post ↦ rw post (login-IsSound table cfg now random decoded s w h)
      | inr other ↦ rw other h
    ])
step-IsSound {cfg} {s} (logout r w e) h = rw e (logout-IsSound cfg r s w h)
step-IsSound {cfg} {s} (access now r w e) h = rw e (access-IsSound cfg now _ r s w h)

-- After any history every stored session stands under its own token; it is an administrator's only
-- if an admin PSK is set, and any other has an e-mail and needs the PSK of normal users.
pub Reach-IsSound : {table : ℕ → ℕ} {cfg : Config} {s : Store} → Reach table cfg s → IsSound cfg s
Reach-IsSound {cfg} start = new_store-IsSound cfg
Reach-IsSound (next r st) = step-IsSound st (Reach-IsSound r)
