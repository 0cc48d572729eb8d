-- ===== src/Tests/History.antt =====
-- A login and the requests after it.
use web_mail.Base.{
  ◌≤◌, ◌+◌, ◌*◌, arith, Text, trim_space, to_lower, keep, ◌∷◌, ◌≡◌, refl, some, [], codes, pos,
  text_eq, List, map, are_distinct, true, false, ◌≢◌,
}
use web_mail.Base.Assoc.{get, put}
use web_mail.Session.{Session, find, create, generate_token}
use web_mail.Auth.{login_handler, check_psk}
use web_mail.Middleware.{request_id, security_headers, cors, max_body_size}
use web_mail.Middleware.RateLimit.{rate_limit, allow, recovered}
use web_mail.Http.{write_json}
use web_mail.Config.{session_ttl}
use web_mail.Server.{Env, login, ingest, new, handle, serve}
use web_mail.Server.History.{
  Event, request, clean_login, run, IsOpened, run-IsOpened, line_about, run-log,
}
use web_mail.Middleware.RateLimit.Steps.{scale, slack}
use web_mail.Server.Attempts.{reaches, is_limited}
use web_mail.Server.History.Attempts.{attempts, limiter_calls, attempts-le}
use web_mail.Tests.Limits.{exact, exact-IsRounded}
use web_mail.Tests.{post, disk, base}
use web_mail.Storage.{FilePath, part}
use web_mail.Ingest.Database.{MessageRow}
use web_mail.Ingest.Fallback.{parsing}
use web_mail.Ingest.Parser.{hash_bytes}
use web_mail.Ingest.Handler.{State}
use web_mail.Ingest.Files.{IsBacked}
use web_mail.Ingest.Uniqueness.{start}
use web_mail.Server.History.Files.{run-IsBacked, run-distinct}
use web_mail.Tests.Auth.{ann_login}
use web_mail.Tests.Ingest.{from_worker, empty_database}
use web_mail.Tests.Parser.{library, library-IsLawful}
use web_mail.Tests.Server.{no_files, chi_answers, env_of, stored}

abbrev login_env : Env
login_env = record (env_of login) { decoded = some ann_login; random_token = some (10 ∷ 11 ∷ []) }

-- A login, and a sweep of its limiter after that.
abbrev pub events : List Event
events = clean_login 5 ∷ request login_env post ∷ []

-- The session that the login opens.
abbrev opened : Session
opened = record {
  email = codes "ann@mail.example";
  is_admin = false;
  expires_at = pos 86400000001000;
  token = codes "0a0b";
}

opened_test : find (codes "0a0b") (run stored events).0.sessions ≡ some opened
unfolding run serve request_id security_headers cors text_eq login_handler create generate_token
    check_psk get put new handle rate_limit allow max_body_size write_json to_lower trim_space keep
    recovered session_ttl find
opened_test = refl

run-IsOpened_example : (opened.token ≡ codes "0a0b") × IsOpened opened (run stored events).1
run-IsOpened_example = run-IsOpened stored events (codes "0a0b") opened opened_test

run-log_example : (run stored events).0.log ≡ map line_about (run stored events).1
run-log_example = run-log stored events (chi_answers, tt)

-- A message from the worker, on an empty disk.
abbrev nothing : State
nothing = record { database = empty_database; files = no_files }

abbrev ingest_env : Env
ingest_env = record (env_of ingest) { parsing = parsing library (pos 1000) }

abbrev ingested : List Event
ingested = request ingest_env from_worker ∷ []

run-distinct_example :
    are_distinct
      (map MessageRow.content_hash (run nothing ingested).0.mail.database.tables.messages)
    ≡ true
run-distinct_example = run-distinct nothing ingested (start 1)

whole-ne-part : (p : FilePath) (t c : Text) → disk.written p t ≢ part c
whole-ne-part p t c = λ e. cc

nothing-IsBacked : IsBacked (hash_bytes library) base nothing
nothing-IsBacked = record {
  addressed = record { at = λ h n e found. absurd (cc found) };
  rows = tt;
}

run-IsBacked_example : IsBacked (hash_bytes library) base (run nothing ingested).0.mail
run-IsBacked_example =
    run-IsBacked library base library-IsLawful (λ t. refl) nothing ingested
      (refl, refl, whole-ne-part, tt) nothing-IsBacked

attempts-le_example :
    attempts (codes "192.0.2.7:4000") (run stored events).1 * scale + 0 * 10 * slack
    ≤ 10 * scale + 10 * 10 * slack
unfolding limiter_calls reaches is_limited text_eq
attempts-le_example =
    attempts-le exact (codes "192.0.2.7:4000") 0 10 stored events exact-IsRounded
      (refl, (λ i. refl), tt) (omega arith)
