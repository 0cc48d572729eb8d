-- ===== src/Ingest/Steps.antt =====
-- What ServeHTTP can do to the state: nothing, save the raw message, or save it and call persist.
use web_mail.Base.{
  ◌≡◌, refl, Bool, true, false, not, Option, none, some, Text, codes, text_eq, length, ℤ, pos,
  ltb_ℤ, Bool-cases, Option-cases, inl, inr,
}
use web_mail.Config.{Config}
use web_mail.Http.{Request, Writer}
use web_mail.Storage.{Disk, FilePath, FileSystem, Result, save_raw_mime}
use web_mail.Ingest.Persist.{Faults, Persisted, persist}
use web_mail.Ingest.Handler.{
  State, Parsing, prepare, is_worker, message_limit, read_message, answer_persisted, after_save,
  store_unless, ingest_raw, serve_http,
}

module _ (ps : Parsing) (f : Faults) (d : Disk) (base : FilePath) (now : ℤ) (ready : Bool) where
  -- The call of persist for a message, with the files that saving it left.
  abbrev pub persisted : Text → State → FileSystem → State
  persisted raw st files =
      let p = prepare ps raw in
      let done = persist f d base now p.parsed p.parser_status p.parser_error st.database files in
      record { database = done.database; files = done.files }

  module _ (P : State → Type 0) (st : State) (same : P st) where
    answer_persisted-cases :
        (p : Persisted) (w : Writer)
        → P (record { database = p.database; files = p.files })
        → P (answer_persisted ps f d base now ready p w).0
    unfolding answer_persisted
    answer_persisted-cases p w held = elim (Option-cases p.id) [
      | inl e ↦ rw (answer_persisted, e) held
      | inr (id, e) ↦ rw (answer_persisted, e) held
    ]

    after_save-cases :
        (raw : Text) (saved : Result) (w : Writer)
        → P (record st { files = saved.0 })
        → (saved.1 ≡ true → P (persisted raw st saved.0))
        → P (after_save ps f d base now ready raw saved st w).0
    unfolding after_save
    after_save-cases raw (files, false) w failed stored = failed
    after_save-cases raw (files, true) w failed stored = answer_persisted-cases _ w (stored refl)

    module _
        (saved : (raw : Text)
          → P (record st { files = (save_raw_mime d base (ps.hash raw) raw st.files).0 }))
        (stored : (raw : Text)
          → (save_raw_mime d base (ps.hash raw) raw st.files).1 ≡ true
          → P (persisted raw st (save_raw_mime d base (ps.hash raw) raw st.files).0)) where
      store_unless-cases :
          (raw : Text) (found : Option Bool) (w : Writer)
          → P (store_unless ps f d base now ready raw found st w).0
      unfolding store_unless
      store_unless-cases raw none w = same
      store_unless-cases raw (some true) w = same
      store_unless-cases raw (some false) w =
          after_save-cases raw (save_raw_mime d base (ps.hash raw) raw st.files) w (saved raw)
            (stored raw)

      ingest_raw-cases :
          (limit : ℤ) (read : Option Text) (w : Writer)
          → P (ingest_raw ps f d base now ready limit read st w).0
      unfolding ingest_raw
      ingest_raw-cases limit none w = same
      ingest_raw-cases limit (some raw) w = elim (Bool-cases (ltb_ℤ limit (pos (length raw)))) [
        | inl large ↦ rw (ingest_raw, large) same
        | inr small ↦ elim (Bool-cases (not ready)) [
          | inl absent ↦ rw (ingest_raw, small, absent) same
          | inr there ↦ rw (ingest_raw, small, there) (store_unless-cases raw _ w)
        ]
      ]

      pub serve_http-cases :
          (cfg : Option Config) (r : Request) (w : Writer)
          → P (serve_http ps f d base now ready cfg r st w).0
      unfolding serve_http
      serve_http-cases cfg r w = elim (Bool-cases (not (text_eq r.method (codes "POST")))) [
        | inl other ↦ rw (serve_http, other) same
        | inr post ↦ elim (Bool-cases (not (is_worker cfg r))) [
          | inl refused ↦ rw (serve_http, post, refused) same
          | inr worker ↦
              rw (serve_http, post, worker)
                (ingest_raw-cases (message_limit cfg) (read_message (message_limit cfg) r) w)
        ]
      ]
