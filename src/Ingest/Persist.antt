-- ===== src/Ingest/Persist.antt =====
-- internal/ingest/handler.go: isDuplicate, persist and nullableString. The transaction works on a
-- copy of the tables, which replaces them at the commit; the files that were written stay. A
-- commit that returns an error is taken to have changed nothing.
use web_mail.Base.{
  ℕ, suc, String, Bool, true, false, ◌||◌, Option, none, some, List, [], ◌∷◌, ◌++◌, Text, codes,
  is_empty, trim_space, ℤ, pos, if◌then◌else◌,
}
use web_mail.Storage.{Disk, FilePath, FileSystem, save_attachment}
use web_mail.Ingest.Message.{Recipient, ParsedAttachment, ParsedMessage}
use web_mail.Ingest.Database.{
  MessageRow, RecipientRow, AttachmentRow, Tables, Database, has_hash, insert_attachment,
  insert_event,
}

-- Which statements the environment makes fail.
pub record Faults : Type 0 where
  pub check : Bool
  pub begin : Bool
  pub message : Bool
  pub recipient : Recipient → Bool
  pub attachment : ParsedAttachment → Bool
  pub event : Bool
  pub commit : Bool

-- `none` is an error of the query.
unfoldable pub is_duplicate : Faults → Text → Database → Option Bool
unfolding has_hash
is_duplicate f hash db = if f.check then none else some (has_hash hash db.tables.events)

unfoldable pub nullable_string : Text → Option Text
nullable_string value = if is_empty (trim_space value) then none else some (trim_space value)

-- What the handler goes on with: the id, if there is no error, the database and the files.
pub record Persisted : Type 0 where
  pub id : Option ℕ
  pub database : Database
  pub files : FileSystem

module _ (f : Faults) (d : Disk) (base : FilePath) (now : ℤ) where
  unfoldable pub message_row : ℕ → ParsedMessage → String → Option Text → MessageRow
  message_row id parsed parser_status parser_error = record {
    id = id;
    cloudflare_message_id = parsed.content_hash;
    content_hash = parsed.content_hash;
    sender = parsed.sender;
    subject = parsed.subject;
    message_date = elim parsed.message_date [ none ↦ now | some t ↦ t ];
    received_at = now;
    text_body = parsed.text_body;
    html_body = parsed.html_body;
    raw_mime_path = codes "raw/" ++ parsed.content_hash;
    parser_status = parser_status;
    parser_error = parser_error;
  }

  unfoldable pub recipient_row : ℕ → Recipient → RecipientRow
  recipient_row id r = record {
    message_id = id;
    recipient_email = r.email;
    recipient_type = r.kind;
    received_at = now;
  }

  unfoldable pub insert_recipients : ℕ → List Recipient → Tables → Option Tables
  insert_recipients id [] t = some t
  insert_recipients id (r ∷ rs) t =
      let rest =
        insert_recipients id rs (record t { recipients = recipient_row id r ∷ t.recipients }) in
      if f.recipient r then none else rest

  unfoldable pub attachment_row : ℕ → ParsedAttachment → AttachmentRow
  attachment_row id a = record {
    message_id = id;
    storage_key = a.content_hash;
    original_filename = nullable_string a.original_filename;
    mime_type = a.mime_type;
    size_bytes = a.size;
    content_hash = a.content_hash;
  }

  unfoldable pub try_attachment : ℕ → ParsedAttachment → Tables → Option Tables
  try_attachment id a t = if f.attachment a then none else insert_attachment (attachment_row id a) t

  -- The loop over the attachments: each is written to the disk and then recorded.
  unfoldable pub insert_attachments :
      ℕ → List ParsedAttachment → Tables → FileSystem → Option Tables × FileSystem
  insert_attachments id [] t fs = (some t, fs)
  insert_attachments id (a ∷ as_) t fs =
      let saved = save_attachment d base (pos id) a.content_hash a.content fs in
      elim saved.1 [
        | false ↦ (none, saved.0)
        | true ↦ elim (try_attachment id a t) [
          | none ↦ (none, saved.0)
          | some t' ↦ insert_attachments id as_ t' saved.0
        ]
      ]

  -- The last statement and the commit.
  unfoldable pub finish : Text → Option Tables → Option Tables
  finish hash none = none
  finish hash (some t) =
      if f.event
      then none
      else elim (insert_event (record { cloudflare_message_id = hash; content_hash = hash }) t) [
        | none ↦ none
        | some t' ↦ if f.commit then none else some t'
      ]

  unfoldable pub after_recipients :
      ℕ → ParsedMessage → FileSystem → Option Tables → Option Tables × FileSystem
  after_recipients id parsed fs none = (none, fs)
  after_recipients id parsed fs (some t) =
      let (recorded, fs') = insert_attachments id parsed.attachments t fs in
      (finish parsed.content_hash recorded, fs')

  unfoldable pub settle : ℕ → Database → Option Tables × FileSystem → Persisted
  settle id db (none, fs) = record {
    id = none;
    database = record db { next_id = suc id };
    files = fs;
  }
  settle id db (some t, fs) = record {
    id = some id;
    database = record { tables = t; next_id = suc id };
    files = fs;
  }

  unfoldable pub persist : ParsedMessage → String → Option Text → Database → FileSystem → Persisted
  persist parsed parser_status parser_error db fs =
      let id = db.next_id in
      let t = db.tables in
      let row = message_row id parsed parser_status parser_error in
      if f.begin || f.message
      then record { id = none; database = db; files = fs }
      else settle id db (
          after_recipients id parsed fs
            (insert_recipients id parsed.recipients (record t { messages = row ∷ t.messages })))
