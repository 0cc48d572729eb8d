-- ===== src/Api/Statements.antt =====
-- The statements of internal/api as the database gets them, written out: of these it is assumed what
-- SQL says of their rows.
use web_mail.Base.{Text, codes}

abbrev pub raw_sql : Text
raw_sql = codes "SELECT content_hash FROM messages WHERE id = ?"

abbrev pub raw_of_recipient_sql : Text
raw_of_recipient_sql =
    codes
      "SELECT m.content_hash FROM messages m WHERE m.id = ? AND EXISTS (SELECT 1 FROM message_recipients mr WHERE mr.message_id = m.id AND mr.recipient_email = ?)"

abbrev pub message_sql : Text
message_sql =
    codes
      "SELECT id, sender, COALESCE(subject,''), message_date, received_at, COALESCE(text_body,''), COALESCE(html_body,''), parser_status FROM messages WHERE id = ?"

abbrev pub message_of_recipient_sql : Text
message_of_recipient_sql =
    codes
      "SELECT m.id, m.sender, COALESCE(m.subject,''), m.message_date, m.received_at, COALESCE(m.text_body,''), COALESCE(m.html_body,''), m.parser_status FROM messages m WHERE m.id = ? AND EXISTS (SELECT 1 FROM message_recipients mr WHERE mr.message_id = m.id AND mr.recipient_email = ?)"

abbrev pub attachment_sql : Text
attachment_sql =
    codes
      "SELECT a.storage_key, COALESCE(a.original_filename,''), a.mime_type, a.size_bytes\nFROM attachments a JOIN messages m ON m.id = a.message_id\nWHERE a.message_id = ? ORDER BY a.id LIMIT 1 OFFSET ?"

abbrev pub attachment_of_recipient_sql : Text
attachment_of_recipient_sql =
    codes
      "SELECT a.storage_key, COALESCE(a.original_filename,''), a.mime_type, a.size_bytes\nFROM attachments a JOIN messages m ON m.id = a.message_id\nWHERE a.message_id = ? AND EXISTS (SELECT 1 FROM message_recipients mr WHERE mr.message_id = m.id AND mr.recipient_email = ?) ORDER BY a.id LIMIT 1 OFFSET ?"

abbrev pub recipients_of_sql : Text
recipients_of_sql =
    codes
      "SELECT recipient_email, recipient_type FROM message_recipients WHERE message_id = ? ORDER BY id"

abbrev pub attachments_of_sql : Text
attachments_of_sql =
    codes
      "SELECT id, COALESCE(original_filename,''), mime_type, size_bytes FROM attachments WHERE message_id = ? ORDER BY id"

abbrev pub list_all_sql : Text
list_all_sql =
    codes
      "SELECT DISTINCT m.id, m.sender, COALESCE(m.subject,''), m.message_date, m.received_at, COALESCE(m.text_body,''), COALESCE(m.html_body,'')\nFROM messages m  ORDER BY m.received_at DESC LIMIT ? OFFSET ?"

abbrev pub search_all_sql : Text
search_all_sql =
    codes
      "SELECT DISTINCT m.id, m.sender, COALESCE(m.subject,''), m.message_date, m.received_at, COALESCE(m.text_body,''), COALESCE(m.html_body,'')\nFROM messages m WHERE MATCH(m.sender, m.subject, m.text_body) AGAINST (? IN BOOLEAN MODE) ORDER BY m.received_at DESC LIMIT ? OFFSET ?"

abbrev pub list_of_recipient_sql : Text
list_of_recipient_sql =
    codes
      "SELECT DISTINCT m.id, m.sender, COALESCE(m.subject,''), m.message_date, m.received_at, COALESCE(m.text_body,''), COALESCE(m.html_body,'')\nFROM messages m WHERE EXISTS (SELECT 1 FROM message_recipients mr WHERE mr.message_id = m.id AND mr.recipient_email = ?) ORDER BY m.received_at DESC LIMIT ? OFFSET ?"

abbrev pub search_of_recipient_sql : Text
search_of_recipient_sql =
    codes
      "SELECT DISTINCT m.id, m.sender, COALESCE(m.subject,''), m.message_date, m.received_at, COALESCE(m.text_body,''), COALESCE(m.html_body,'')\nFROM messages m WHERE EXISTS (SELECT 1 FROM message_recipients mr WHERE mr.message_id = m.id AND mr.recipient_email = ?) AND MATCH(m.sender, m.subject, m.text_body) AGAINST (? IN BOOLEAN MODE) ORDER BY m.received_at DESC LIMIT ? OFFSET ?"

abbrev pub count_messages : Text
count_messages = codes "SELECT COUNT(DISTINCT m.id) FROM messages m "
