-- ===== src/Ingest/Files.antt =====
-- Every stored message has its raw file: what ServeHTTP keeps of the disk and the tables together.
use web_mail.Base.{
  ◌≡◌, ◌≢◌, refl, sym, ap, subst, ◌∙◌, Bool, Option, none, some, List, [], ◌∷◌, Text, length, ℕ, ℤ,
  pos, All, Bool-cases, Option-cases, inl, inr, String, ◌||◌,
}
use web_mail.Config.{Config}
use web_mail.Http.{Request, Writer}
use web_mail.Storage.{Disk, FilePath, FileSystem, file, part, save_raw_mime, save_attachment}
use web_mail.Storage.Blobs.{save_raw_mime-Keeps}
use web_mail.Storage.Digests.{digest_path, save_attachment-digest}
use web_mail.Storage.Addressed.{IsAddressed, IsAddressed-same, save_raw_mime-IsSaved}
use web_mail.Ingest.Message.{ParsedAttachment, ParsedMessage}
use web_mail.Ingest.Database.{MessageRow, Tables, Database}
use web_mail.Ingest.Persist.{
  Faults, persist, insert_attachments, try_attachment, after_recipients, settle, message_row,
}
use web_mail.Ingest.Atomicity.{persist-none, persist-IsStored}
use web_mail.Ingest.Steps.{serve_http-cases}
use web_mail.Ingest.Handler.{State, Parsing, prepare, serve_http}

-- A file that holds bytes with a digest.
abbrev pub Holds : (Text → Text) → FilePath → FileSystem → Text → Type 0
Holds digest base fs h = (c : Text) × (fs (digest_path base h) ≡ some (file c)) × (digest c ≡ h)

-- The files under raw/ hold bytes with their digests, and every stored message has its file.
pub record IsBacked (digest : Text → Text) (base : FilePath) (st : State) : Type 0 where
  pub addressed : IsAddressed digest base st.files
  pub rows :
      All
        (λ (m : MessageRow). Holds digest base st.files m.content_hash)
        st.database.tables.messages

module _ (f : Faults) (d : Disk) (base : FilePath) (now : ℤ) (h : Text) where
  insert_attachments-digest :
      (id : ℕ) (as_ : List ParsedAttachment) (t : Tables) (fs : FileSystem)
      → (insert_attachments f d base now id as_ t fs).1 (digest_path base h)
        ≡ fs (digest_path base h)
  unfolding insert_attachments
  insert_attachments-digest id [] t fs = refl
  insert_attachments-digest id (a ∷ as_) t fs =
      let same = save_attachment-digest base h d (pos id) a.content_hash a.content fs in
      elim (Bool-cases (save_attachment d base (pos id) a.content_hash a.content fs).1) [
        | inr failed ↦ rw (insert_attachments, failed) same
        | inl saved ↦ elim (Option-cases (try_attachment f d base now id a t)) [
          | inl failed ↦ rw (insert_attachments, saved, failed) same
          | inr (t1, recorded) ↦
              rw (insert_attachments, saved, recorded)
                (insert_attachments-digest id as_ t1 _ ∙ same)
        ]
      ]

  after_recipients-digest :
      (id : ℕ) (parsed : ParsedMessage) (fs : FileSystem) (o : Option Tables)
      → (after_recipients f d base now id parsed fs o).1 (digest_path base h)
        ≡ fs (digest_path base h)
  unfolding after_recipients
  after_recipients-digest id parsed fs none = refl
  after_recipients-digest id parsed fs (some t) =
      insert_attachments-digest id parsed.attachments t fs

  settle-files :
      (id : ℕ) (db : Database) (o : Option Tables × FileSystem)
      → (settle f d base now id db o).files ≡ o.1
  unfolding settle
  settle-files id db (none, fs) = refl
  settle-files id db (some t, fs) = refl

  -- Whatever fails in it, persist leaves the files under raw/ as they are.
  persist-digest :
      (parsed : ParsedMessage) (parser_status : String) (parser_error : Option Text) (db : Database)
      (fs : FileSystem)
      → (persist f d base now parsed parser_status parser_error db fs).files (digest_path base h)
        ≡ fs (digest_path base h)
  unfolding persist
  persist-digest parsed parser_status parser_error db fs =
      elim (Bool-cases (f.begin || f.message)) [
        | inl failed ↦ rw (persist, failed) refl
        | inr began ↦
            rw (persist, began)
              (ap (λ (files : FileSystem). files (digest_path base h))
                  (settle-files db.next_id db _)
                ∙ after_recipients-digest db.next_id parsed fs _)
      ]

module _ (digest : Text → Text) (base : FilePath) where
  -- The rows stay backed when no file under raw/ is lost.
  rows-kept :
      (fs fs' : FileSystem)
      → ((h c : Text)
          → fs (digest_path base h) ≡ some (file c)
          → fs' (digest_path base h) ≡ some (file c))
      → (ms : List MessageRow) → All (λ (m : MessageRow). Holds digest base fs m.content_hash) ms
      → All (λ (m : MessageRow). Holds digest base fs' m.content_hash) ms
  rows-kept fs fs' kept [] rows = tt
  rows-kept fs fs' kept (m ∷ ms) ((c, found, same), rows) =
      ((c, kept m.content_hash c found, same), rows-kept fs fs' kept ms rows)

module _ (ps : Parsing) (f : Faults) (d : Disk) (base : FilePath) (now : ℤ) (ready : Bool)
    -- the disk stores no part of a write, hashes have 64 digits, and the parser keeps them
    (intact : (p : FilePath) (t c : Text) → d.written p t ≢ part c)
    (sized : (raw : Text) → length (ps.hash raw) ≡ 64)
    (hashed : (raw : Text) → (prepare ps raw).parsed.content_hash ≡ ps.hash raw) where
  persist-IsBacked :
      (raw : Text) (db : Database) (files : FileSystem)
      → IsAddressed ps.hash base files
      → Holds ps.hash base files (ps.hash raw)
      → All (λ (m : MessageRow). Holds ps.hash base files m.content_hash) db.tables.messages
      → let p = prepare ps raw in
        let done = persist f d base now p.parsed p.parser_status p.parser_error db files in
        IsBacked ps.hash base (record { database = done.database; files = done.files })
  unfolding message_row
  persist-IsBacked raw db files addressed present rows =
      let p = prepare ps raw in
      let done = persist f d base now p.parsed p.parser_status p.parser_error db files in
      let same = λ (h : Text).
        persist-digest f d base now h p.parsed p.parser_status p.parser_error db files in
      let kept =
        rows-kept ps.hash base files done.files (λ h c e. same h ∙ e) db.tables.messages rows in
      record {
        addressed = IsAddressed-same ps.hash base files done.files same addressed;
        rows = elim (Option-cases done.id) [
          | inl refused ↦
              rw
                (persist-none f d base now p.parsed p.parser_status p.parser_error db files refused)
                kept
          | inr (id, e) ↦
              let stored =
                (persist-IsStored f d base now p.parsed p.parser_status p.parser_error db files id
                  e).1 in
              let (c, found, hash) = present in
              rw stored.messages (
                subst (Holds ps.hash base done.files) (sym (hashed raw))
                    (c, same (ps.hash raw) ∙ found, hash),
                kept,
              )
        ];
      }

  -- ServeHTTP keeps the files under raw/ addressed by their hashes, and a file of its hash for every
  -- stored message, whatever fails, if the disk stores no part of a write.
  pub serve_http-IsBacked :
      (cfg : Option Config) (r : Request) (st : State) (w : Writer)
      → IsBacked ps.hash base st
      → IsBacked ps.hash base (serve_http ps f d base now ready cfg r st w).0
  serve_http-IsBacked cfg r st w backed =
      let saving = λ (raw : Text).
        save_raw_mime-IsSaved ps.hash base d intact raw (sized raw) st.files backed.addressed in
      let kept = λ (raw : Text).
        rows-kept ps.hash base st.files (save_raw_mime d base (ps.hash raw) raw st.files).0
          (λ h c e. save_raw_mime-Keeps d base (ps.hash raw) raw st.files (digest_path base h) c e)
          st.database.tables.messages backed.rows in
      serve_http-cases ps f d base now ready (IsBacked ps.hash base) st backed
        (λ raw. record { addressed = (saving raw).addressed; rows = kept raw })
        (λ raw ok.
          persist-IsBacked raw st.database (save_raw_mime d base (ps.hash raw) raw st.files).0
            (saving raw).addressed ((saving raw).present ok) (kept raw))
        cfg r w
