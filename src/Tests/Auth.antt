-- ===== src/Tests/Auth.antt =====
-- Logins, requests and logouts with concrete sessions.
use web_mail.Base.{
  ℕ, ◌≡◌, refl, ◌≢◌, Option, none, some, List, [], ◌∷◌, Text, codes, ℤ, pos, true, false, arith,
  text_eq, if◌then◌else◌, ◌*◌, ◌⊎◌, ◌+ℤ◌, ◌<ℤ◌,
}
use web_mail.Config.{Config}
use web_mail.Session.{Session, Store, new_store, find}
use web_mail.Http.{Writer, new_writer, status_of}
use web_mail.Base.Assoc.{get, put}
use web_mail.Session.Sharing.{
  Event, writes, gets, creates, makes, get_shared, create_shared, clone_session, ensure_token,
  new_session, assign, act, run, replay,
}
use web_mail.Session.Refinement.{read, get_shared-replay}
use web_mail.Auth.{LoginRequest, check_psk, login_handler, require_auth, session_ttl}
use web_mail.Auth.Access.{IsLive, require_auth_iff}
use web_mail.Auth.Login.{IsLoggedIn, login_handler-200, login_handler-status}
use web_mail.Auth.Lifetime.{session_ttl-wraps}
use web_mail.Tests.{config, post, ann, store_of_ann, signed_in}

abbrev same_case : ℕ → ℕ
same_case c = c

abbrev pub ann_login : LoginRequest
ann_login = record { psk = codes "user"; email = codes " ann@mail.example" }

require_auth_iff_example :
    (session : Session) × IsLive (some config) (pos 1000) signed_in store_of_ann session
    × (record signed_in { session = some ann } ≡ record signed_in { session = some session })
unfolding require_auth text_eq web_mail.Base.Assoc.get
require_auth_iff_example =
    (require_auth_iff (some config) (pos 1000) signed_in (record signed_in { session = some ann })
        store_of_ann new_writer).0
      refl

-- The login of an administrator.
abbrev admin_login : LoginRequest
admin_login = record { psk = codes "root"; email = [] }

abbrev logged_in : Store × Writer
logged_in =
    login_handler same_case (some config) (pos 5) (some (18 ∷ 255 ∷ [])) (some admin_login) post
      new_store new_writer

admin_logs_in :
    (req : LoginRequest) × (post.method ≡ codes "POST")
    × (some admin_login ≡ some req)
    × IsLoggedIn same_case config
        (pos 5)
        (some (18 ∷ 255 ∷ []))
        req
        new_store
        logged_in.0
        new_writer
        logged_in.1
unfolding login_handler text_eq
admin_logs_in =
    login_handler-200 same_case (some config) (pos 5) (some (18 ∷ 255 ∷ [])) (some admin_login) post
      new_store new_writer refl refl

abbrev failure : ℕ
failure = 500

login_handler-status_example :
    (status_of
        (login_handler same_case
          (some config)
          (pos 5)
          none
          (some ann_login)
          post
          new_store
          new_writer).1
      ≡ some failure)
    × ((failure ≡ 200)
        ⊎ ((login_handler same_case
              (some config)
              (pos 5)
              none
              (some ann_login)
              post
              new_store
              new_writer).0
            ≡ new_store))
unfolding check_psk text_eq web_mail.Base.to_lower web_mail.Base.trim_space
login_handler-status_example =
    login_handler-status same_case (some config) (pos 5) none (some ann_login) post new_store
      new_writer failure refl refl

abbrev endless : Config
endless = record config { session_ttl_hours = pos 2562048 }

session_ttl-wraps_example : pos 7 +ℤ session_ttl (some endless) <ℤ pos 7
session_ttl-wraps_example =
    session_ttl-wraps endless 2562048 (pos 7) refl (omega arith) (omega arith)

-- A caller stores a session, changes its own copy, gets the stored one and changes that too.
abbrev meddling : List Event
meddling =
    writes 2 (record ann { is_admin = true })
    ∷ gets (codes "0a0b")
    ∷ writes 0 (record ann { email = codes "eve@mail.example" })
    ∷ creates none 0
    ∷ makes ann
    ∷ []

meddling_test :
    read (get_shared (codes "0a0b") (run meddling).0.memory (run meddling).0.store) ≡ some ann
unfolding run get_shared create_shared clone_session ensure_token new_session assign text_eq get put
    act
meddling_test = refl

get_shared-replay_example :
    read (get_shared (codes "0a0b") (run meddling).0.memory (run meddling).0.store)
    ≡ find (codes "0a0b") (replay (run meddling).1)
get_shared-replay_example = get_shared-replay meddling (codes "0a0b")
