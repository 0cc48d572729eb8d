-- ===== src/Ingest/Handler.antt =====
-- internal/ingest/handler.go: ServeHTTP. The hash, ParseMIME and fallbackParsedMessageWithError are
-- parameters here, so what is proved holds for each of them; log lines and the client address that
-- only they use are left out.
use web_mail.Base.{
  String, Bool, true, false, not, ◌&&◌, Option, none, some, [], ◌∷◌, Text, codes, text_eq, is_empty,
  length, ℤ, pos, pos_part, leb_ℤ, ltb_ℤ, ◌+ℤ◌, wrap64, if◌then◌else◌,
}
use web_mail.Config.{Config}
use web_mail.Auth.{constant_time_compare}
use web_mail.Http.{
  Request, Writer, Handler, literal, int, header_get, read_body, write_json, write_error,
}
use web_mail.Storage.{Disk, FilePath, FileSystem, save_raw_mime}
use web_mail.Ingest.Message.{ParsedMessage}
use web_mail.Ingest.Database.{Database}
use web_mail.Ingest.Persist.{Faults, Persisted, is_duplicate, persist}

abbrev ingest_psk_header : String
ingest_psk_header = "X-Lite-Mail-Ingest-PSK"

pub record State : Type 0 where
  pub database : Database
  pub files : FileSystem

-- HashBytes, ParseMIME with the text of its error, and fallbackParsedMessageWithError.
pub record Parsing : Type 0 where
  pub hash : Text → Text
  pub parse : Text → ParsedMessage × Option Text
  pub fallback : Text → Text → Text → ParsedMessage

-- What is stored of a message, with its parser status and error.
pub record Prepared : Type 0 where
  pub parsed : ParsedMessage
  pub parser_status : String
  pub parser_error : Option Text

unfoldable pub with_hash : Text → ParsedMessage → ParsedMessage
with_hash hash p = if is_empty p.content_hash then record p { content_hash = hash } else p

unfoldable pub prepare_parsed : Parsing → Text → ParsedMessage × Option Text → Prepared
unfolding with_hash
prepare_parsed ps raw (p, none) = record {
  parsed = with_hash (ps.hash raw) p;
  parser_status = "success";
  parser_error = none;
}
prepare_parsed ps raw (p, some e) = record {
  parsed = with_hash (ps.hash raw) (ps.fallback raw (ps.hash raw) e);
  parser_status = "failed";
  parser_error = some e;
}

unfoldable pub prepare : Parsing → Text → Prepared
unfolding prepare_parsed
prepare ps raw = prepare_parsed ps raw (ps.parse raw)

-- Whether the request has the worker's PSK.
unfoldable pub is_worker : Option Config → Request → Bool
unfolding constant_time_compare header_get
is_worker none r = false
is_worker (some c) r =
    not (is_empty c.worker_ingest_psk)
    && constant_time_compare (header_get ingest_psk_header r.headers) c.worker_ingest_psk

unfoldable pub message_limit : Option Config → ℤ
message_limit none = pos 26214400
message_limit (some c) =
    if leb_ℤ c.max_message_bytes (pos 0) then pos 26214400 else c.max_message_bytes

-- io.ReadAll(io.LimitReader(r.Body, limit+1)), with the sum in int64; a LimitReader with a
-- negative limit is at its end.
unfoldable pub read_message : ℤ → Request → Option Text
unfolding read_body ◌+ℤ◌ wrap64
read_message limit r = read_body (pos_part (wrap64 (limit +ℤ pos 1))) r

-- `ready` is whether there are a database and a storage.
module _ (ps : Parsing) (f : Faults) (d : Disk) (base : FilePath) (now : ℤ) (ready : Bool) where
  unfoldable pub answer_persisted : Persisted → Writer → State × Writer
  unfolding write_json
  answer_persisted p w = elim p.id [
    | none ↦
        (record { database = p.database; files = p.files }, write_error 500 "persist message" w)
    | some id ↦ (
      record { database = p.database; files = p.files },
      write_json 200 (("status", literal "accepted") ∷ ("message_id", int (pos id)) ∷ []) w,
    )
  ]

  unfoldable pub after_save : Text → FileSystem × Bool → State → Writer → State × Writer
  after_save raw (files, false) st w =
      (record st { files = files }, write_error 500 "save raw MIME" w)
  after_save raw (files, true) st w =
      let p = prepare ps raw in
      answer_persisted
        (persist f d base now p.parsed p.parser_status p.parser_error st.database files) w

  -- By what the duplicate check finds.
  unfoldable pub store_unless : Text → Option Bool → State → Writer → State × Writer
  store_unless raw none st w = (st, write_error 500 "check duplicate" w)
  store_unless raw (some true) st w = (st, write_json 200 (("status", literal "duplicate") ∷ []) w)
  store_unless raw (some false) st w =
      after_save raw (save_raw_mime d base (ps.hash raw) raw st.files) st w

  unfoldable pub ingest_raw : ℤ → Option Text → State → Writer → State × Writer
  ingest_raw limit none st w = (st, write_error 400 "read request body" w)
  ingest_raw limit (some raw) st w =
      if ltb_ℤ limit (pos (length raw))
      then (st, write_error 413 "message too large" w)
      else if not ready
      then (st, write_error 500 "ingest dependencies unavailable" w)
      else store_unless raw (is_duplicate f (ps.hash raw) st.database) st w

  unfoldable pub serve_http : Option Config → Handler State
  serve_http cfg r st w =
      if not (text_eq r.method (codes "POST"))
      then (st, write_error 405 "method not allowed" w)
      else if not (is_worker cfg r)
      then (st, write_error 401 "unauthorized" w)
      else ingest_raw (message_limit cfg) (read_message (message_limit cfg) r) st w
