-- ===== src/Ingest/Responses.antt =====
-- How the ingest handler answers.
use web_mail.Base.{
  ℕ, ◌≡◌, refl, Bool, true, false, not, Option, none, some, Text, codes, text_eq, ℤ, pos, length,
  ltb_ℤ,
}
use web_mail.Config.{Config}
use web_mail.Http.{Request, Writer}
use web_mail.Http.Response.{Responds, here, if-Responds}
use web_mail.Middleware.{framed}
use web_mail.Middleware.Responses.{write_json-Responds}
use web_mail.Storage.{Disk, FilePath, FileSystem}
use web_mail.Ingest.Persist.{Faults, Persisted, is_duplicate}
use web_mail.Ingest.Handler.{
  State, Parsing, is_worker, message_limit, read_message, answer_persisted, after_save,
  store_unless, ingest_raw, serve_http,
}

module _ {request : Text} (ps : Parsing) (f : Faults) (d : Disk) (base : FilePath) (now : ℤ)
    (ready : Bool) (w : Writer) (fresh : w.sent ≡ none) where
  answer_persisted-Responds :
      (p : Persisted) → Responds (framed request) w (answer_persisted ps f d base now ready p w).1
  unfolding answer_persisted
  answer_persisted-Responds p = by_id p.id refl
    where
      by_id :
          (o : Option ℕ)
          → p.id ≡ o
          → Responds (framed request) w (answer_persisted ps f d base now ready p w).1
      by_id none e = rw (answer_persisted, e) (write_json-Responds 500 _ fresh here)
      by_id (some id) e = rw (answer_persisted, e) (write_json-Responds 200 _ fresh here)

  after_save-Responds :
      (raw : Text) (saved : FileSystem × Bool) (st : State)
      → Responds (framed request) w (after_save ps f d base now ready raw saved st w).1
  unfolding after_save
  after_save-Responds raw (files, false) st = write_json-Responds 500 _ fresh here
  after_save-Responds raw (files, true) st = answer_persisted-Responds _

  store_unless-Responds :
      (raw : Text) (found : Option Bool) (st : State)
      → Responds (framed request) w (store_unless ps f d base now ready raw found st w).1
  unfolding store_unless
  store_unless-Responds raw none st = write_json-Responds 500 _ fresh here
  store_unless-Responds raw (some true) st = write_json-Responds 200 _ fresh here
  store_unless-Responds raw (some false) st = after_save-Responds raw _ st

  ingest_raw-Responds :
      (limit : ℤ) (read : Option Text) (st : State)
      → Responds (framed request) w (ingest_raw ps f d base now ready limit read st w).1
  unfolding ingest_raw
  ingest_raw-Responds limit none st = write_json-Responds 400 _ fresh here
  ingest_raw-Responds limit (some raw) st =
      if-Responds (ltb_ℤ limit (pos (length raw))) _ _ (write_json-Responds 413 _ fresh here) (
        if-Responds (not ready) _ _ (write_json-Responds 500 _ fresh here)
          (store_unless-Responds raw (is_duplicate f (ps.hash raw) st.database) st))

  pub serve_http-Responds :
      (cfg : Option Config) (r : Request) (st : State)
      → Responds (framed request) w (serve_http ps f d base now ready cfg r st w).1
  unfolding serve_http
  serve_http-Responds cfg r st =
      if-Responds (not (text_eq r.method (codes "POST"))) _ _ (write_json-Responds 405 _ fresh here)
        (if-Responds (not (is_worker cfg r)) _ _ (write_json-Responds 401 _ fresh here)
          (ingest_raw-Responds (message_limit cfg) (read_message (message_limit cfg) r) st))
