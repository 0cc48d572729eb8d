-- ===== src/Api/Sql.antt =====
-- The database as the handlers of internal/api see it, and the statements that they send:
-- rawMessageAuthQuery, messageAuthQuery, listWhere, attachmentAuthQuery. The database is a
-- parameter; `none` is an error of the driver.
use web_mail.Base.{Option, none, some, List, [], ◌∷◌, ◌++◌, Text, codes, ℤ, if◌then◌else◌}
use web_mail.Session.{Session}
use web_mail.Api.Params.{is_search_query_usable}

-- A value of a column, or an argument for a `?`.
pub data Cell : Type 0 where
  int : ℤ → Cell
  text : Text → Cell

pub record Sql : Type 0 where
  pub query : Text → List Cell → Option (List (List Cell))

pub data Row : Type 0 where
  row : List Cell → Row
  no_rows : Row
  failed : Row

unfoldable pub first_row : Option (List (List Cell)) → Row
first_row none = failed
first_row (some []) = no_rows
first_row (some (r ∷ rest)) = row r

-- QueryRow; `no_rows` is sql.ErrNoRows.
unfoldable pub query_row : Sql → Text → List Cell → Row
unfolding first_row
query_row db statement args = first_row (db.query statement args)

-- A statement with its arguments.
pub record Statement : Type 0 where
  pub sql : Text
  pub args : List Cell

unfoldable pub raw_for_admin : Text
raw_for_admin = codes "SELECT content_hash FROM messages WHERE id = ?"

unfoldable pub raw_for_user : Text
raw_for_user =
    codes
      "SELECT m.content_hash FROM messages m WHERE m.id = ? AND EXISTS (SELECT 1 FROM message_recipients mr WHERE mr.message_id = m.id AND mr.recipient_email = ?)"

unfoldable pub raw_message_auth_query : Session → ℤ → Statement
raw_message_auth_query session id =
    if session.is_admin
    then record { sql = raw_for_admin; args = int id ∷ [] }
    else record { sql = raw_for_user; args = int id ∷ text session.email ∷ [] }

unfoldable pub message_for_admin : Text
message_for_admin =
    codes
      "SELECT id, sender, COALESCE(subject,''), message_date, received_at, COALESCE(text_body,''), COALESCE(html_body,''), parser_status FROM messages WHERE id = ?"

unfoldable pub message_for_user : Text
message_for_user =
    codes
      "SELECT m.id, m.sender, COALESCE(m.subject,''), m.message_date, m.received_at, COALESCE(m.text_body,''), COALESCE(m.html_body,''), m.parser_status FROM messages m WHERE m.id = ? AND EXISTS (SELECT 1 FROM message_recipients mr WHERE mr.message_id = m.id AND mr.recipient_email = ?)"

unfoldable pub message_auth_query : Session → ℤ → Statement
message_auth_query session id =
    if session.is_admin
    then record { sql = message_for_admin; args = int id ∷ [] }
    else record { sql = message_for_user; args = int id ∷ text session.email ∷ [] }

abbrev attachment_base : Text
attachment_base =
    codes
      "SELECT a.storage_key, COALESCE(a.original_filename,''), a.mime_type, a.size_bytes\nFROM attachments a JOIN messages m ON m.id = a.message_id\nWHERE a.message_id = ?"

abbrev of_recipient : Text
of_recipient =
    codes
      " AND EXISTS (SELECT 1 FROM message_recipients mr WHERE mr.message_id = m.id AND mr.recipient_email = ?)"

abbrev one_attachment : Text
one_attachment = codes " ORDER BY a.id LIMIT 1 OFFSET ?"

unfoldable pub attachment_for_admin : Text
attachment_for_admin = attachment_base ++ one_attachment

unfoldable pub attachment_for_user : Text
attachment_for_user = (attachment_base ++ of_recipient) ++ one_attachment

unfoldable pub attachment_auth_query : Session → ℤ → ℤ → Statement
attachment_auth_query session id idx =
    if session.is_admin
    then record { sql = attachment_for_admin; args = int id ∷ int idx ∷ [] }
    else record { sql = attachment_for_user; args = int id ∷ text session.email ∷ int idx ∷ [] }

abbrev is_recipient : Text
is_recipient =
    codes
      "EXISTS (SELECT 1 FROM message_recipients mr WHERE mr.message_id = m.id AND mr.recipient_email = ?)"

abbrev matches : Text
matches = codes "MATCH(m.sender, m.subject, m.text_body) AGAINST (? IN BOOLEAN MODE)"

-- strings.Join(clauses, " AND ")
unfoldable pub join_and : List Text → Text
join_and [] = []
join_and (c ∷ []) = c
join_and (c ∷ d ∷ cs) = c ++ (codes " AND " ++ join_and (d ∷ cs))

unfoldable pub where_of : List Text → Text
where_of [] = []
where_of (c ∷ cs) = codes "WHERE " ++ join_and (c ∷ cs)

unfoldable pub list_where : Session → Text → Statement
unfolding where_of join_and
list_where session q =
    let mine = if session.is_admin then [] else is_recipient ∷ [] in
    let sought = if is_search_query_usable q then matches ∷ [] else [] in
    record {
      sql = where_of (mine ++ sought);
      args =
          (if session.is_admin then [] else text session.email ∷ [])
          ++ (if is_search_query_usable q then text q ∷ [] else []);
    }
