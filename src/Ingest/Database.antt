-- ===== src/Ingest/Database.antt =====
-- The tables of internal/db/migrations/001_create_mailbox_tables.up.sql and the statements of
-- internal/ingest/handler.go on them. A statement fails on a broken unique index, and whenever the
-- environment (a value that is too long, a lost connection) makes it fail.
use web_mail.Base.{
  ℕ, String, Bool, false, ◌&&◌, ◌||◌, Option, none, some, List, [], ◌∷◌, Text, text_eq, ℤ,
  if◌then◌else◌,
}
use web_mail.Ingest.Message.{RecipientType}

pub record MessageRow : Type 0 where
  pub id : ℕ
  pub cloudflare_message_id : Text
  pub content_hash : Text
  pub sender : Text
  pub subject : Text
  pub message_date : ℤ
  pub received_at : ℤ
  pub text_body : Text
  pub html_body : Text
  pub raw_mime_path : Text
  pub parser_status : String
  pub parser_error : Option Text

pub record RecipientRow : Type 0 where
  pub message_id : ℕ
  pub recipient_email : Text
  pub recipient_type : RecipientType
  pub received_at : ℤ

pub record AttachmentRow : Type 0 where
  pub message_id : ℕ
  pub storage_key : Text
  pub original_filename : Option Text
  pub mime_type : Text
  pub size_bytes : ℕ
  pub content_hash : Text

pub record EventRow : Type 0 where
  pub cloudflare_message_id : Text
  pub content_hash : Text

pub record Tables : Type 0 where
  pub messages : List MessageRow
  pub recipients : List RecipientRow
  pub attachments : List AttachmentRow
  pub events : List EventRow

-- The tables and the AUTO_INCREMENT counter of `messages`, which a rollback does not take back.
pub record Database : Type 0 where
  pub tables : Tables
  pub next_id : ℕ

unfoldable pub has_key : Text → List AttachmentRow → Bool
has_key key [] = false
has_key key (a ∷ as_) = text_eq a.storage_key key || has_key key as_

unfoldable pub has_event : Text → Text → List EventRow → Bool
has_event cloudflare_id hash [] = false
has_event cloudflare_id hash (e ∷ es) =
    text_eq e.cloudflare_message_id cloudflare_id && text_eq e.content_hash hash
    || has_event cloudflare_id hash es

-- SELECT id FROM ingest_events WHERE content_hash = ? LIMIT 1
unfoldable pub has_hash : Text → List EventRow → Bool
has_hash hash [] = false
has_hash hash (e ∷ es) = text_eq e.content_hash hash || has_hash hash es

-- INSERT INTO attachments, with idx_attachments_storage_key
unfoldable pub insert_attachment : AttachmentRow → Tables → Option Tables
unfolding has_key
insert_attachment a t =
    if has_key a.storage_key t.attachments
    then none
    else some (record t { attachments = a ∷ t.attachments })

-- INSERT INTO ingest_events, with idx_ingest_dedupe
unfoldable pub insert_event : EventRow → Tables → Option Tables
unfolding has_event
insert_event e t =
    if has_event e.cloudflare_message_id e.content_hash t.events
    then none
    else some (record t { events = e ∷ t.events })
