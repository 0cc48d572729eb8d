-- ===== src/Ingest/Answers.antt =====
-- internal/ingest/handler.go: what the answers of ServeHTTP say of the database.
use web_mail.Base.{
  ℕ, String, ◌≡◌, refl, ◌≢◌, Bool, true, false, Option, none, some, [], ◌∷◌, Text, text_eq,
  text_eq_iff, text_eq_refl, codes, length, ℤ, pos, ltb_ℤ, ap, ◌∙◌, arith, Bool-cases, Option-cases,
  inl, inr, ◌⊎◌, if◌then◌else◌,
}
use web_mail.Config.{Config}
use web_mail.Http.{Request, Writer, literal, write_json, write_error, status_of}
use web_mail.Storage.{Disk, FilePath, FileSystem, save_raw_mime}
use web_mail.Ingest.Database.{Database, has_hash}
use web_mail.Ingest.Persist.{Faults, is_duplicate, persist}
use web_mail.Ingest.Atomicity.{persist-none, persist-IsStored}
use web_mail.Ingest.Handler.{
  State, Parsing, Prepared, prepare, is_worker, message_limit, read_message, answer_persisted,
  after_save, store_unless, ingest_raw, serve_http,
}

module _ (ps : Parsing) (f : Faults) (d : Disk) (base : FilePath) (now : ℤ) (ready : Bool) where
  -- Without the worker's PSK a request changes nothing: the answer is 405, or 401 to a POST.
  pub serve_http-refused :
      (cfg : Option Config) (r : Request) (st : State) (w : Writer)
      → w.sent ≡ none
      → is_worker cfg r ≡ false
      → ((serve_http ps f d base now ready cfg r st w).0 ≡ st)
        × (status_of (serve_http ps f d base now ready cfg r st w).1
            ≡ some (if text_eq r.method (codes "POST") then 401 else 405))
  unfolding serve_http write_json
  serve_http-refused cfg r st w fresh refused =
      elim (Bool-cases (text_eq r.method (codes "POST"))) [
        | inl post ↦ rw (serve_http, post, refused) (refl, rw fresh refl)
        | inr other ↦ rw (serve_http, other) (refl, rw fresh refl)
      ]

  -- What an answer to the message `raw` says: with 200 it is in the database, by its hash or by
  -- that of its parsed message, and with any other status the tables are as they were.
  abbrev IsAnswered : Text → State → State × Writer → Type 0
  IsAnswered raw st a =
      (status_of a.1 ≢ some 200 → a.0.database.tables ≡ st.database.tables)
      × (status_of a.1 ≡ some 200
          → (has_hash (ps.hash raw) a.0.database.tables.events ≡ true)
            ⊎ (has_hash (prepare ps raw).parsed.content_hash a.0.database.tables.events ≡ true))

  IsAnswered-error :
      (raw : Text) (st st' : State) (status : ℕ) (message : String) (w : Writer)
      → w.sent ≡ none
      → status ≢ 200
      → st'.database.tables ≡ st.database.tables
      → IsAnswered raw st (st', write_error status message w)
  unfolding write_json
  IsAnswered-error raw st st' status message w fresh other kept =
      (λ e. kept, λ e. absurd (ground arith))

  persist-has_hash :
      (p : Prepared) (db : Database) (files : FileSystem) (id : ℕ)
      → (persist f d base now p.parsed p.parser_status p.parser_error db files).id ≡ some id
      → has_hash p.parsed.content_hash
          (persist f d base now p.parsed p.parser_status p.parser_error db
            files).database.tables.events
        ≡ true
  unfolding has_hash
  persist-has_hash p db files id e =
      let (same, stored) =
        persist-IsStored f d base now p.parsed p.parser_status p.parser_error db files id e in
      rw (stored.events, text_eq_refl) refl

  after_save-IsAnswered :
      (raw : Text) (saved : FileSystem × Bool) (st : State) (w : Writer)
      → w.sent ≡ none
      → IsAnswered raw st (after_save ps f d base now ready raw saved st w)
  unfolding after_save answer_persisted write_json
  after_save-IsAnswered raw (files, false) st w fresh =
      IsAnswered-error raw st (record st { files = files }) 500 "save raw MIME" w fresh
        (λ e. omega arith) refl
  after_save-IsAnswered raw (files, true) st w fresh =
      let p = prepare ps raw in
      elim (Option-cases
        (persist f d base now p.parsed p.parser_status p.parser_error st.database files).id) [
          | inl refused ↦
              rw (after_save, answer_persisted, refused)
                (IsAnswered-error raw st
                  (record {
                    database =
                        (persist f d base now p.parsed p.parser_status p.parser_error st.database
                          files).database;
                    files =
                        (persist f d base now p.parsed p.parser_status p.parser_error st.database
                          files).files;
                  })
                  500 "persist message" w fresh (λ e. omega arith)
                  (persist-none f d base now p.parsed p.parser_status p.parser_error st.database
                    files refused))
          | inr (id, e) ↦
              rw (after_save, answer_persisted, e)
                (
                  λ other. absurd (other (rw fresh refl)),
                  λ e'. inr (persist-has_hash p st.database files id e),
                )
        ]

  is_duplicate-has_hash :
      (hash : Text) (db : Database)
      → is_duplicate f hash db ≡ some true
      → has_hash hash db.tables.events ≡ true
  unfolding is_duplicate
  is_duplicate-has_hash hash db e = ground arith

  has_hash-is_duplicate :
      (hash : Text) (db : Database)
      → f.check ≡ false
      → has_hash hash db.tables.events ≡ true
      → is_duplicate f hash db ≡ some true
  unfolding is_duplicate
  has_hash-is_duplicate hash db works found = ground arith

  store_unless-IsAnswered :
      (raw : Text) (found : Option Bool) (st : State) (w : Writer)
      → w.sent ≡ none
      → is_duplicate f (ps.hash raw) st.database ≡ found
      → IsAnswered raw st (store_unless ps f d base now ready raw found st w)
  unfolding store_unless write_json
  store_unless-IsAnswered raw none st w fresh e =
      IsAnswered-error raw st st 500 "check duplicate" w fresh (λ e'. omega arith) refl
  store_unless-IsAnswered raw (some true) st w fresh e = (
    λ other. absurd (other (rw fresh refl)),
    λ e'. inl (is_duplicate-has_hash (ps.hash raw) st.database e),
  )
  store_unless-IsAnswered raw (some false) st w fresh e =
      after_save-IsAnswered raw (save_raw_mime d base (ps.hash raw) raw st.files) st w fresh

  ingest_raw-IsAnswered :
      (limit : ℤ) (raw : Text) (st : State) (w : Writer)
      → w.sent ≡ none
      → IsAnswered raw st (ingest_raw ps f d base now ready limit (some raw) st w)
  unfolding ingest_raw store_unless after_save answer_persisted
  ingest_raw-IsAnswered limit raw st w fresh = elim (Bool-cases (ltb_ℤ limit (pos (length raw)))) [
    | inl large ↦
        rw (ingest_raw, large)
          (IsAnswered-error raw st st 413 "message too large" w fresh (λ e. omega arith) refl)
    | inr small ↦ elim (Bool-cases ready) [
      | inl is_ready ↦
          rw (ingest_raw, small, is_ready) (store_unless-IsAnswered raw _ st w fresh refl)
      | inr missing ↦
          rw (ingest_raw, small, missing)
            (IsAnswered-error raw st st 500 "ingest dependencies unavailable" w fresh
              (λ e. omega arith) refl)
    ]
  ]

  -- The answer to a request with the worker's PSK whose body was read.
  serve_http-read :
      (cfg : Option Config) (r : Request) (st : State) (w : Writer)
      → r.method ≡ codes "POST"
      → is_worker cfg r ≡ true
      → serve_http ps f d base now ready cfg r st w
        ≡ ingest_raw ps f d base now ready
            (message_limit cfg)
            (read_message (message_limit cfg) r)
            st
            w
  unfolding serve_http
  serve_http-read cfg r st w post worker =
      let is_post = (text_eq_iff r.method (codes "POST")).1 post in
      rw (serve_http, is_post, worker) refl

  -- An answer other than 200 leaves every table as it was.
  pub serve_http-error :
      (cfg : Option Config) (r : Request) (st : State) (w : Writer)
      → w.sent ≡ none
      → status_of (serve_http ps f d base now ready cfg r st w).1 ≢ some 200
      → (serve_http ps f d base now ready cfg r st w).0.database.tables ≡ st.database.tables
  unfolding serve_http ingest_raw
  serve_http-error cfg r st w fresh other = elim (Bool-cases (text_eq r.method (codes "POST"))) [
    | inr wrong ↦ rw (serve_http, wrong) refl
    | inl post ↦ elim (Bool-cases (is_worker cfg r)) [
      | inr refused ↦
          ap (λ (s : State). s.database.tables) (serve_http-refused cfg r st w fresh refused).0
      | inl worker ↦
          let same = serve_http-read cfg r st w ((text_eq_iff _ _).0 post) worker in
          elim (Option-cases (read_message (message_limit cfg) r)) [
            | inl unread ↦ rw (same, unread, ingest_raw) refl
            | inr (raw, read) ↦
                let same' =
                  same
                  ∙ ap (λ o. ingest_raw ps f d base now ready (message_limit cfg) o st w) read in
                rw same'
                  ((ingest_raw-IsAnswered (message_limit cfg) raw st w fresh).0 (rw same' at other))
          ]
    ]
  ]

  -- A message that is in the database is answered 200 and changes nothing, the files included.
  serve_http-found :
      (cfg : Option Config) (r : Request) (raw : Text) (st : State) (w : Writer)
      → r.method ≡ codes "POST"
      → is_worker cfg r ≡ true
      → read_message (message_limit cfg) r ≡ some raw
      → ltb_ℤ (message_limit cfg) (pos (length raw)) ≡ false
      → ready ≡ true
      → f.check ≡ false
      → has_hash (ps.hash raw) st.database.tables.events ≡ true
      → serve_http ps f d base now ready cfg r st w
        ≡ (st, write_json 200 (("status", literal "duplicate") ∷ []) w)
  unfolding serve_http ingest_raw store_unless is_duplicate
  serve_http-found cfg r raw st w post worker read small is_ready works found =
      let duplicate = has_hash-is_duplicate (ps.hash raw) st.database works found in
      rw (serve_http-read cfg r st w post worker, read, ingest_raw, small, is_ready, duplicate) refl

-- A request that was answered 200, made again with the database and the files that it left, is
-- answered as a duplicate and changes nothing, at any later time and whatever the disk does, if
-- the check for duplicates works; `kept` is that the parser keeps the hash of the message.
pub serve_http-twice :
    (ps : Parsing) (f f' : Faults) (d d' : Disk) (base : FilePath) (now now' : ℤ)
    (cfg : Option Config) (r : Request) (raw : Text) (st : State) (w w' : Writer)
    (kept : (prepare ps raw).parsed.content_hash ≡ ps.hash raw)
    → w.sent ≡ none
    → r.method ≡ codes "POST"
    → is_worker cfg r ≡ true
    → read_message (message_limit cfg) r ≡ some raw
    → ltb_ℤ (message_limit cfg) (pos (length raw)) ≡ false
    → status_of (serve_http ps f d base now true cfg r st w).1 ≡ some 200
    → f'.check ≡ false
    → serve_http ps f' d' base now' true cfg r (serve_http ps f d base now true cfg r st w).0 w' ≡ (
      (serve_http ps f d base now true cfg r st w).0,
      write_json 200 (("status", literal "duplicate") ∷ []) w',
    )
serve_http-twice ps f f' d d' base now now' cfg r raw st w w' kept fresh post worker read small done
      works =
    let same =
      serve_http-read ps f d base now true cfg r st w post worker
      ∙ ap (λ o. ingest_raw ps f d base now true (message_limit cfg) o st w) read in
    let stored =
      (ingest_raw-IsAnswered ps f d base now true (message_limit cfg) raw st w fresh).1
        (rw same at done) in
    serve_http-found ps f' d' base now' true cfg r raw _ w' post worker read small refl works
      (rw same (elim stored [ inl found ↦ found | inr found ↦ rw (← kept) found ]))
