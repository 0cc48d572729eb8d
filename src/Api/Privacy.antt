-- ===== src/Api/Privacy.antt =====
-- What the answers of the database mean for the protected routes, and who may read a message.
pub mod Objects
pub mod Raw
pub mod Message
pub mod Listing
pub mod Attachment
use web_mail.Base.{
  ◌≡◌, refl, ◌⊎◌, inl, inr, Bool, true, false, Option, none, some, List, [], ◌∷◌, ◌++◌, Text, ℤ,
  pos, ◌<ℤ◌, arith, if◌then◌else◌, Bool-cases, Option-cases,
}
use web_mail.Session.{Session}
use web_mail.Http.{Request, Writer, bytes, status_of, http_error}
use web_mail.Storage.{read_raw_mime, read_attachment}
use web_mail.Api.Params.{numeric_url_param, numeric_url_param_allow_zero}
use web_mail.Api.Sql.{
  Cell, int, text, Sql, Row, row, no_rows, failed, first_row, query_row, raw_for_admin,
  raw_for_user, raw_message_auth_query, attachment_for_admin, attachment_for_user,
  attachment_auth_query,
}
use web_mail.Api.Statements.{
  raw_sql, raw_of_recipient_sql, attachment_sql, attachment_of_recipient_sql,
}
use web_mail.Api.Messages.{Deps, send_raw, raw_of_row, raw_for_session, raw_for_id, get_raw_mime}
use web_mail.Api.Attachments.{
  send_attachment, attachment_of_row, attachment_for_session, attachment_for_ids, get_attachment,
}

-- The content of the tables, as far as the statements below read it; whether an e-mail is a
-- recipient is up to the collation of the column.
pub record Tables : Type 1 where
  pub HasHash : ℤ → Text → Type 0
  pub HasKey : ℤ → Text → Type 0
  pub IsRecipient : ℤ → Text → Type 0

-- What SQL says that the rows of the four statements are.
pub record Answers (db : Sql) (t : Tables) : Type 0 where
  pub raw_admin :
      (id : ℤ) (hash : Text) (rest : List (List Cell))
      → db.query raw_sql (int id ∷ []) ≡ some ((text hash ∷ []) ∷ rest)
      → t.HasHash id hash
  pub raw_user :
      (id : ℤ) (email hash : Text) (rest : List (List Cell))
      → db.query raw_of_recipient_sql (int id ∷ text email ∷ []) ≡ some ((text hash ∷ []) ∷ rest)
      → t.HasHash id hash × t.IsRecipient id email
  pub attachment_admin :
      (id idx size : ℤ) (key name mime_type : Text) (rest : List (List Cell))
      → db.query attachment_sql (int id ∷ int idx ∷ [])
        ≡ some ((text key ∷ text name ∷ text mime_type ∷ int size ∷ []) ∷ rest)
      → t.HasKey id key
  pub attachment_user :
      (id idx size : ℤ) (email key name mime_type : Text) (rest : List (List Cell))
      → db.query attachment_of_recipient_sql (int id ∷ text email ∷ int idx ∷ [])
        ≡ some ((text key ∷ text name ∷ text mime_type ∷ int size ∷ []) ∷ rest)
      → t.HasKey id key × t.IsRecipient id email

pub first_row-row :
    (o : Option (List (List Cell))) (cells : List Cell)
    → first_row o ≡ row cells
    → (rest : List (List Cell)) × (o ≡ some (cells ∷ rest))
unfolding first_row
first_row-row none cells e = cc
first_row-row (some []) cells e = cc
first_row-row (some (r ∷ rest)) cells e = (rest, ground arith)

-- What a session must have to be sent a message: an administrator's rights, or its e-mail among the
-- recipients.
abbrev pub MayRead : Tables → ℤ → Session → Type 0
MayRead t id session = (session.is_admin ≡ true) ⊎ t.IsRecipient id session.email
