-- ===== src/Server/History/Files.antt =====
-- What the tables and the disk hold together, after any sequence of requests.
use web_mail.Base.{
  ◌≡◌, ◌≢◌, refl, List, [], ◌∷◌, Text, length, arith, map, ℤ, Option, some, are_distinct, true,
}
use web_mail.Http.{Request, Writer, new_writer}
use web_mail.Session.Laws.{length-hex_encode}
use web_mail.Storage.{FilePath, Disk, part}
use web_mail.Ingest.Mime.{Library}
use web_mail.Ingest.Parser.{hash_bytes}
use web_mail.Ingest.Fallback.{parsing}
use web_mail.Ingest.Utf8.{IsLawful}
use web_mail.Ingest.Prepared.{prepare-content_hash}
use web_mail.Ingest.Database.{MessageRow}
use web_mail.Ingest.Uniqueness.{Reach, Reach-distinct, serve_http-Reach}
use web_mail.Ingest.Files.{IsBacked, serve_http-IsBacked}
use web_mail.Ingest.Handler.{Parsing, State, serve_http}
use web_mail.Ingest.Persist.{Faults}
use web_mail.Config.{Config}
use web_mail.Server.{new}
use web_mail.Server.Invariant.{serve-Holds}
use web_mail.Server.History.{Event, request, clean_login, clean_ingest, run}

-- Each request is parsed by ParseMIME, with one library and one base directory, and its disk stores
-- no part of a write.
abbrev pub AreIntact : Library → FilePath → List Event → Type 0
AreIntact lib base [] = Unit
AreIntact lib base (request env r ∷ events) =
    (env.parsing ≡ parsing lib env.now)
    × (env.base ≡ base)
    × ((p : FilePath) (t c : Text) → env.disk.written p t ≢ part c)
    × AreIntact lib base events
AreIntact lib base (clean_login now ∷ events) = AreIntact lib base events
AreIntact lib base (clean_ingest now ∷ events) = AreIntact lib base events

module _ (lib : Library) (base : FilePath) (laws : IsLawful lib)
    (digests : (t : Text) → length (lib.sha256 t) ≡ 32) where
  -- The program's parser with such a disk.
  parsing-IsBacked :
      (ps : Parsing) (f : Faults) (d : Disk) (b : FilePath) (now : ℤ)
      → ps ≡ parsing lib now
      → b ≡ base
      → ((p : FilePath) (t c : Text) → d.written p t ≢ part c)
      → (cfg : Option Config) (r : Request) (st : State) (w : Writer)
      → IsBacked (hash_bytes lib) base st
      → IsBacked (hash_bytes lib) base (serve_http ps f d b now true cfg r st w).0
  unfolding parsing hash_bytes
  parsing-IsBacked ps f d b now parsed placed intact cfg r st w backed =
      rw (parsed, placed)
        (serve_http-IsBacked (parsing lib now) f d base now true intact
          (λ raw. omega (arith, length-hex_encode (lib.sha256 raw), digests raw))
          (prepare-content_hash lib laws now) cfg r st w backed)

  -- After any such events every stored message has its file under raw/, named by its hash, whose
  -- bytes have that hash, whatever failed in between, if it was so at the start. `laws` is what the
  -- package utf8 says of validity, `digests` that SHA-256 has 32 bytes.
  pub run-IsBacked :
      (mail : State) (events : List Event)
      → AreIntact lib base events
      → IsBacked (hash_bytes lib) base mail
      → IsBacked (hash_bytes lib) base (run mail events).0.mail
  unfolding run new
  run-IsBacked mail [] intact backed = backed
  run-IsBacked mail (request env r ∷ events) (parsed, placed, whole, intact) backed =
      serve-Holds (IsBacked (hash_bytes lib) base) env
        (parsing-IsBacked env.parsing env.faults env.disk env.base env.now parsed placed whole
          (some env.config))
        (run mail events).0 (run-IsBacked mail events intact backed) r new_writer refl
  run-IsBacked mail (clean_login now ∷ events) intact backed =
      run-IsBacked mail events intact backed
  run-IsBacked mail (clean_ingest now ∷ events) intact backed =
      run-IsBacked mail events intact backed

run-Reach :
    (mail : State) (events : List Event)
    → Reach mail.database
    → Reach (run mail events).0.mail.database
unfolding run new
run-Reach mail [] reached = reached
run-Reach mail (request env r ∷ events) reached =
    serve-Holds (λ (s : State). Reach s.database) env
      (serve_http-Reach env.parsing env.faults env.disk env.base env.now true (some env.config))
      (run mail events).0 (run-Reach mail events reached) r new_writer refl
run-Reach mail (clean_login now ∷ events) reached = run-Reach mail events reached
run-Reach mail (clean_ingest now ∷ events) reached = run-Reach mail events reached

-- After any events no two stored messages have one hash, if the tables were those of a history of
-- calls of persist at the start.
pub run-distinct :
    (mail : State) (events : List Event)
    → Reach mail.database
    → are_distinct (map MessageRow.content_hash (run mail events).0.mail.database.tables.messages)
      ≡ true
run-distinct mail events reached = Reach-distinct _ (run-Reach mail events reached)
