-- ===== src/Tests/Ingest.antt =====
-- Messages that the worker posts, on a small database and disk.
use web_mail.Base.{ℕ, ◌≢◌, arith, ◌≡◌, refl, true, false, none, some, [], ◌∷◌, codes, pos, text_eq}
use web_mail.Http.{Request, new_writer, literal, write_json, header_get, read_body}
use web_mail.Storage.{FileSystem, save_raw_mime, validate_key, path_eq, save_attachment}
use web_mail.Ingest.Message.{to, ParsedMessage}
use web_mail.Ingest.Database.{MessageRow, Tables, Database, has_key}
use web_mail.Ingest.Persist.{Faults, persist}
use web_mail.Ingest.Handler.{
  Parsing, State, prepare, is_worker, message_limit, read_message, serve_http,
}
use web_mail.Ingest.Uniqueness.{shares_key, persist-shared}
use web_mail.Ingest.Answers.{serve_http-error, serve_http-twice}
use web_mail.Tests.{config, post, disk, base}

abbrev failure : ℕ
failure = 500

abbrev pub no_faults : Faults
no_faults = record {
  check = false;
  begin = false;
  message = false;
  recipient = λ r. false;
  attachment = λ a. false;
  event = false;
  commit = false;
}

abbrev no_commit : Faults
no_commit = record no_faults { commit = true }

abbrev greeting : ParsedMessage
greeting = record {
  sender = codes "bob@mail.example";
  subject = codes "hi";
  message_date = none;
  recipients = record { email = codes "ann@mail.example"; kind = to } ∷ [];
  text_body = codes "hello";
  html_body = [];
  attachments =
      record {
        content = codes "x";
        mime_type = codes "text/plain";
        original_filename = codes "x.txt";
        size = 1;
        content_hash = codes "beef";
      }
      ∷ [];
  content_hash = codes "c0ffee";
}

abbrev pub parsing : Parsing
parsing = record {
  hash = λ raw. codes "c0ffee";
  parse = λ raw. (greeting, none);
  fallback = λ raw hash e. record greeting { content_hash = hash };
}

abbrev empty_tables : Tables
empty_tables = record { messages = []; recipients = []; attachments = []; events = [] }

abbrev pub empty_database : Database
empty_database = record { tables = empty_tables; next_id = 1 }

abbrev no_files : FileSystem
no_files p = none

abbrev state : State
state = record { database = empty_database; files = no_files }

abbrev pub from_worker : Request
from_worker = record post {
  headers = ("X-Lite-Mail-Ingest-PSK", codes "worker") ∷ [];
  body = codes "Subject: hi";
}

ingest : Unit {0}
unfolding serve_http persist save_raw_mime validate_key path_eq text_eq save_attachment is_worker
    message_limit read_message read_body web_mail.Strconv.format_int
    web_mail.Ingest.Persist.is_duplicate prepare header_get has_key
    web_mail.Ingest.Handler.ingest_raw web_mail.Ingest.Handler.store_unless
    web_mail.Ingest.Handler.after_save web_mail.Ingest.Handler.answer_persisted
    web_mail.Ingest.Persist.settle web_mail.Ingest.Persist.after_recipients
    web_mail.Ingest.Persist.insert_recipients web_mail.Ingest.Persist.finish
    web_mail.Ingest.Persist.insert_attachments web_mail.Ingest.Persist.try_attachment
    web_mail.Ingest.Persist.attachment_row web_mail.Ingest.Database.insert_attachment
    web_mail.Ingest.Database.insert_event web_mail.Ingest.Handler.prepare_parsed write_json
    shares_key
ingest = tt

failure-ne-success : some failure ≢ some 200
failure-ne-success = λ e. ground arith

serve_http-error_example :
    (serve_http parsing no_commit disk base
      (pos 9)
      true
      (some config)
      from_worker
      state
      new_writer).0.database.tables
    ≡ empty_tables
unfolding ingest
serve_http-error_example =
    serve_http-error parsing no_commit disk base (pos 9) true (some config) from_worker state
      new_writer refl failure-ne-success

serve_http-twice_example :
    serve_http parsing no_faults disk base
      (pos 10)
      true
      (some config)
      from_worker
      (serve_http parsing no_faults disk base
        (pos 9)
        true
        (some config)
        from_worker
        state
        new_writer).0
      new_writer
    ≡ (
      (serve_http parsing no_faults disk base
          (pos 9)
          true
          (some config)
          from_worker
          state
          new_writer).0,
      write_json 200 (("status", literal "duplicate") ∷ []) new_writer,
    )
unfolding ingest
serve_http-twice_example =
    serve_http-twice parsing no_faults no_faults disk disk base (pos 9) (pos 10) (some config)
      from_worker (codes "Subject: hi") state new_writer new_writer refl refl refl refl refl refl
      refl refl

abbrev one : ℕ
one = 1

abbrev first_database : Database
first_database =
    (persist no_faults disk base (pos 9) greeting "success" none empty_database no_files).database

-- Another message with the same attachment.
abbrev forwarded : ParsedMessage
forwarded = record greeting { content_hash = codes "cafe" }

persist-shared_example :
    ((persist no_faults disk base (pos 10) forwarded "success" none first_database no_files).id
      ≡ none)
    × ((persist no_faults disk base
          (pos 10)
          forwarded
          "success"
          none
          first_database
          no_files).database.tables
        ≡ first_database.tables)
unfolding ingest
persist-shared_example =
    persist-shared no_faults disk base (pos 10) forwarded "success" none first_database no_files
      refl
