-- ===== src/Ingest/Message.antt =====
-- internal/ingest/parser.go: the data types of a parsed message.
use web_mail.Base.{ℕ, Option, List, Text, ℤ}

pub data RecipientType : Type 0 where
  to cc_type bcc : RecipientType

pub record Recipient : Type 0 where
  pub email : Text
  pub kind : RecipientType

-- Size is the length of the content.
pub record ParsedAttachment : Type 0 where
  pub content : Text
  pub mime_type : Text
  pub original_filename : Text
  pub size : ℕ
  pub content_hash : Text

-- A zero MessageDate is `none`.
pub record ParsedMessage : Type 0 where
  pub sender : Text
  pub subject : Text
  pub message_date : Option ℤ
  pub recipients : List Recipient
  pub text_body : Text
  pub html_body : Text
  pub attachments : List ParsedAttachment
  pub content_hash : Text
