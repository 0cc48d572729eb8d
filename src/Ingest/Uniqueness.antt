-- ===== src/Ingest/Uniqueness.antt =====
-- Over any sequence of requests no two messages have one content hash, and a message with an
-- attachment that is stored already is refused.
use web_mail.Base.{
  ℕ, String, ◌≡◌, refl, Bool, true, false, ◌||◌, Option, none, some, List, [], ◌∷◌, Text, is_among,
  are_distinct, ℤ, pos, ap, arith, Bool-cases, Option-cases, inl, inr, map,
}
use web_mail.Storage.{Disk, FilePath, FileSystem, save_attachment}
use web_mail.Ingest.Message.{ParsedAttachment, ParsedMessage}
use web_mail.Ingest.Database.{
  MessageRow, AttachmentRow, EventRow, Tables, Database, has_key, has_event, insert_attachment,
}
use web_mail.Ingest.Persist.{
  Faults, persist, insert_attachments, try_attachment, attachment_row, message_row, finish,
  after_recipients, settle,
}
use web_mail.Config.{Config}
use web_mail.Http.{Request, Writer}
use web_mail.Ingest.Handler.{Parsing, State, prepare, serve_http}
use web_mail.Ingest.Steps.{serve_http-cases}
use web_mail.Ingest.Atomicity.{
  IsStored, persist-none, persist-IsStored, insert_recipients-rows, try_attachment-rows,
}

-- Whether an attachment has the key of one that is stored.
unfoldable pub shares_key : List ParsedAttachment → List AttachmentRow → Bool
unfolding has_key
shares_key [] rows = false
shares_key (a ∷ as_) rows = has_key a.content_hash rows || shares_key as_ rows

shares_key-cons :
    (as_ : List ParsedAttachment) (row : AttachmentRow) (rows : List AttachmentRow)
    → shares_key as_ rows ≡ true
    → shares_key as_ (row ∷ rows) ≡ true
unfolding shares_key has_key
shares_key-cons [] row rows e = cc
shares_key-cons (a ∷ as_) row rows e = let rest = shares_key-cons as_ row rows in ground arith

module _ (f : Faults) (d : Disk) (base : FilePath) (now : ℤ) where
  try_attachment-free :
      (id : ℕ) (a : ParsedAttachment) (t t' : Tables)
      → try_attachment f d base now id a t ≡ some t'
      → has_key a.content_hash t.attachments ≡ false
  unfolding try_attachment insert_attachment attachment_row
  try_attachment-free id a t t' e = ground arith

  insert_attachments-shared :
      (id : ℕ) (as_ : List ParsedAttachment) (t : Tables) (fs : FileSystem)
      → shares_key as_ t.attachments ≡ true
      → (insert_attachments f d base now id as_ t fs).0 ≡ none
  unfolding insert_attachments shares_key
  insert_attachments-shared id [] t fs e = cc
  insert_attachments-shared id (a ∷ as_) t fs e =
      elim (Bool-cases (save_attachment d base (pos id) a.content_hash a.content fs).1) [
        | inr failed ↦ rw (insert_attachments, failed) refl
        | inl saved ↦ elim (Option-cases (try_attachment f d base now id a t)) [
          | inl failed ↦ rw (insert_attachments, saved, failed) refl
          | inr (t1, recorded) ↦
              let free = try_attachment-free id a t t1 recorded in
              let rest : shares_key as_ t.attachments ≡ true = rw free at e in
              rw (insert_attachments, saved, recorded)
                (insert_attachments-shared id as_ t1 _ (
                  rw (try_attachment-rows f d base now id a t t1 recorded)
                    (shares_key-cons as_ _ t.attachments rest)))
        ]
      ]

  after_recipients-shared :
      (parsed : ParsedMessage) (fs : FileSystem) (t : Tables) (o : Option Tables) (id : ℕ)
      → ((t' : Tables) → o ≡ some t' → t'.attachments ≡ t.attachments)
      → shares_key parsed.attachments t.attachments ≡ true
      → (after_recipients f d base now id parsed fs o).0 ≡ none
  unfolding after_recipients finish
  after_recipients-shared parsed fs t none id kept e = refl
  after_recipients-shared parsed fs t (some t') id kept e =
      rw (insert_attachments-shared id parsed.attachments t' fs (rw (kept t' refl) e)) refl

  settle-failed :
      (id : ℕ) (db : Database) (o : Option Tables × FileSystem)
      → o.0 ≡ none
      → (settle f d base now id db o).id ≡ none
  unfolding settle
  settle-failed id db (none, fs) e = refl
  settle-failed id db (some t, fs) e = cc

  -- Attachments have their content's hash for a key, and the keys are unique: a message with an
  -- attachment that any earlier message had gets no id and leaves the tables as they were.
  pub persist-shared :
      (parsed : ParsedMessage) (parser_status : String) (parser_error : Option Text) (db : Database)
      (fs : FileSystem)
      → shares_key parsed.attachments db.tables.attachments ≡ true
      → ((persist f d base now parsed parser_status parser_error db fs).id ≡ none)
        × ((persist f d base now parsed parser_status parser_error db fs).database.tables
            ≡ db.tables)
  unfolding persist settle
  persist-shared parsed parser_status parser_error db fs e =
      let refused : (persist f d base now parsed parser_status parser_error db fs).id ≡ none =
        elim (Bool-cases (f.begin || f.message)) [
          | inl failed ↦ rw (persist, failed) refl
          | inr began ↦
              rw (persist, began)
                (settle-failed db.next_id db _ (
                  after_recipients-shared parsed fs db.tables _ db.next_id
                    (λ t' e'.
                      ap Tables.attachments
                        (insert_recipients-rows f d base now db.next_id parsed.recipients _ t' e'))
                    e))
        ] in
      (refused, persist-none f d base now parsed parser_status parser_error db fs refused)

-- What every history of requests keeps.
pub record IsConsistent (t : Tables) : Type 0 where
  pub logged : map MessageRow.content_hash t.messages ≡ map EventRow.content_hash t.events
  pub paired : map EventRow.cloudflare_message_id t.events ≡ map EventRow.content_hash t.events
  pub distinct : are_distinct (map EventRow.content_hash t.events) ≡ true

has_event-is_among :
    (hash : Text) (es : List EventRow)
    → map EventRow.cloudflare_message_id es ≡ map EventRow.content_hash es
    → has_event hash hash es ≡ is_among hash (map EventRow.content_hash es)
unfolding has_event is_among
has_event-is_among hash [] e = refl
has_event-is_among hash (x ∷ es) e =
    let head : x.cloudflare_message_id ≡ x.content_hash = cc e in
    let rest = has_event-is_among hash es (cc e) in rw (head, rest) (ground arith)

-- The databases that any sequence of calls of persist makes of empty tables, whatever fails.
pub data Reach : Database → Type 0 where
  start :
      (next_id : ℕ)
      → Reach (record {
        tables = record { messages = []; recipients = []; attachments = []; events = [] };
        next_id = next_id;
      })
  call :
      (f : Faults) (d : Disk) (base : FilePath) (now : ℤ) (parsed : ParsedMessage)
      (parser_status : String) (parser_error : Option Text) (db : Database) (fs : FileSystem)
      → Reach db
      → Reach (persist f d base now parsed parser_status parser_error db fs).database

IsStored-IsConsistent :
    (f : Faults) (d : Disk) (base : FilePath) (now : ℤ) (parsed : ParsedMessage)
    (parser_status : String) (parser_error : Option Text) (id : ℕ) (t t' : Tables)
    → IsStored f d base now parsed parser_status parser_error id t t'
    → IsConsistent t
    → IsConsistent t'
unfolding are_distinct message_row
IsStored-IsConsistent f d base now parsed parser_status parser_error id t t' stored kept = record {
  logged = rw (stored.messages, stored.events) (ap (λ hs. parsed.content_hash ∷ hs) kept.logged);
  paired = rw stored.events (ap (λ hs. parsed.content_hash ∷ hs) kept.paired);
  distinct =
      rw
        (
          stored.events,
          ← has_event-is_among parsed.content_hash t.events kept.paired,
          stored.is_new,
        )
        kept.distinct;
}

Reach-IsConsistent : (db : Database) → Reach db → IsConsistent db.tables
unfolding are_distinct
Reach-IsConsistent db (start next_id) = record { logged = refl; paired = refl; distinct = refl }
Reach-IsConsistent db (call f d base now parsed parser_status parser_error db0 fs reached) =
    let kept = Reach-IsConsistent db0 reached in
    elim (Option-cases (persist f d base now parsed parser_status parser_error db0 fs).id) [
      | inl refused ↦
          rw (persist-none f d base now parsed parser_status parser_error db0 fs refused) kept
      | inr (id, e) ↦
          IsStored-IsConsistent f d base now parsed parser_status parser_error id _ _
            (persist-IsStored f d base now parsed parser_status parser_error db0 fs id e).1 kept
    ]

-- Whatever requests come in, fail or race, no two messages have one content hash: a message is
-- stored at most once.
pub Reach-distinct :
    (db : Database)
    → Reach db
    → are_distinct (map MessageRow.content_hash db.tables.messages) ≡ true
Reach-distinct db reached = let kept = Reach-IsConsistent db reached in rw kept.logged kept.distinct

-- ServeHTTP reaches no other databases.
pub serve_http-Reach :
    (ps : Parsing) (f : Faults) (d : Disk) (base : FilePath) (now : ℤ) (ready : Bool)
    (cfg : Option Config) (r : Request) (st : State) (w : Writer)
    → Reach st.database
    → Reach (serve_http ps f d base now ready cfg r st w).0.database
serve_http-Reach ps f d base now ready cfg r st w reached =
    serve_http-cases ps f d base now ready (λ (s : State). Reach s.database) st reached
      (λ raw. reached)
      (λ raw ok.
        let p = prepare ps raw in
        call f d base now p.parsed p.parser_status p.parser_error st.database _ reached)
      cfg r w
