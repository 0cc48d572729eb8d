-- ===== src/Auth/Access.antt =====
-- RequireAuth, RequireAdmin and LogoutHandler.
use web_mail.Base.{◌≡◌, refl, ◌↔◌, Option, none, some, Text, ℤ, ◌≤ℤ◌, arith}
use web_mail.Config.{Config}
use web_mail.Session.{Session, Store, find}
use web_mail.Http.{Request, Writer, answered, pass, cookie, status_of}
use web_mail.Auth.{session_cookie_name, require_auth, admit, admit_token}

-- The cookie of a request names a session that has not expired.
pub record IsLive (cfg : Option Config) (now : ℤ) (r : Request) (s : Store) (session : Session)
    : Type 0 where
  pub token : Text
  pub carried : cookie (session_cookie_name cfg) r.cookies ≡ some token
  pub stored : find token s ≡ some session
  pub fresh : now ≤ℤ session.expires_at

admit-pass :
    (cfg : Option Config) (now : ℤ) (session : Session) (r : Request) (s : Store) (w : Writer)
    → now ≤ℤ session.expires_at
    → (admit cfg now (some session) r s w).verdict ≡ pass (record r { session = some session })
unfolding admit
admit-pass cfg now session r s w h = ground arith

pass-admit :
    (cfg : Option Config) (now : ℤ) (found : Option Session) (r r' : Request) (s : Store)
    (w : Writer)
    → (admit cfg now found r s w).verdict ≡ pass r'
    → (session : Session) × (found ≡ some session)
      × (now ≤ℤ session.expires_at)
      × (r' ≡ record r { session = some session })
unfolding admit
pass-admit cfg now none r r' s w e = cc
pass-admit cfg now (some session) r r' s w e = (session, refl, ground arith, ground arith)

-- The same from the token that the cookie carries.
pass-admit_token :
    (cfg : Option Config) (now : ℤ) (carried : Option Text) (r r' : Request) (s : Store)
    (w : Writer)
    → (admit_token cfg now carried r s w).verdict ≡ pass r'
    → (token : Text) × (session : Session) × (carried ≡ some token)
      × (find token s ≡ some session)
      × (now ≤ℤ session.expires_at)
      × (r' ≡ record r { session = some session })
unfolding admit_token
pass-admit_token cfg now none r r' s w e = cc
pass-admit_token cfg now (some token) r r' s w e =
    let (session, found, fresh, same) = pass-admit cfg now (find token s) r r' s w e in
    (token, session, refl, found, fresh, same)

-- A request passes exactly if its cookie names a stored session that has not expired, and it is
-- passed on with that session in its context.
pub require_auth_iff :
    (cfg : Option Config) (now : ℤ) (r r' : Request) (s : Store) (w : Writer)
    → ((require_auth cfg now r s w).verdict ≡ pass r') ↔ (
        (session : Session) × IsLive cfg now r s session
        × (r' ≡ record r { session = some session }))
unfolding require_auth admit_token
require_auth_iff cfg now r r' s w = (
  λ e.
      let (token, session, carried, found, fresh, same) =
        pass-admit_token cfg now (cookie (session_cookie_name cfg) r.cookies) r r' s w e in
      (session, record { token = token; carried = carried; stored = found; fresh = fresh }, same),
  λ p.
      let (session, live, same) = p in
      rw (same, live.carried, admit_token)
        (rw (live.stored, admit) (admit-pass cfg now session r s w live.fresh)),
)

module _ (cfg : Option Config) (now : ℤ) (r : Request) (s : Store) (w : Writer) where
  admit_token-refused :
      (carried : Option Text)
      → w.sent ≡ none
      → (admit_token cfg now carried r s w).verdict ≡ answered
      → status_of (admit_token cfg now carried r s w).writer ≡ some 401
  unfolding admit_token admit
  admit_token-refused none fresh e = ground arith
  admit_token-refused (some token) fresh e = ground arith

  -- A request that does not pass is answered with status 401.
  pub require_auth-refused :
      w.sent ≡ none
      → (require_auth cfg now r s w).verdict ≡ answered
      → status_of (require_auth cfg now r s w).writer ≡ some 401
  unfolding require_auth
  require_auth-refused = admit_token-refused (cookie (session_cookie_name cfg) r.cookies)

  admit-unchanged :
      (found : Option Session) (r' : Request)
      → (admit cfg now found r s w).verdict ≡ pass r'
      → ((admit cfg now found r s w).state ≡ s) × ((admit cfg now found r s w).writer ≡ w)
  unfolding admit
  admit-unchanged none r' e = cc
  admit-unchanged (some session) r' e = ground arith

  admit_token-unchanged :
      (carried : Option Text) (r' : Request)
      → (admit_token cfg now carried r s w).verdict ≡ pass r'
      → ((admit_token cfg now carried r s w).state ≡ s)
        × ((admit_token cfg now carried r s w).writer ≡ w)
  unfolding admit_token
  admit_token-unchanged none r' e = cc
  admit_token-unchanged (some token) r' e = admit-unchanged (find token s) r' e

  -- A request that passes finds the store and the response as they were.
  pub require_auth-unchanged :
      (r' : Request)
      → (require_auth cfg now r s w).verdict ≡ pass r'
      → ((require_auth cfg now r s w).state ≡ s) × ((require_auth cfg now r s w).writer ≡ w)
  unfolding require_auth
  require_auth-unchanged = admit_token-unchanged (cookie (session_cookie_name cfg) r.cookies)
