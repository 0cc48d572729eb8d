-- ===== src/Api/Messages.antt =====
-- internal/api/messages.go: GetRawMIME, GetMessage and ListMessages. The session is the one that
-- RequireAuth put into the request's context. The objects are those before `omitempty`. A row that
-- does not scan is an error.
use web_mail.Base.{
  String, Option, none, some, List, [], ◌∷◌, ◌++◌, map, Text, codes, trim_space, length, ℤ,
}
use mathlib.Core.Option
use web_mail.Strconv.{format_int, format_nat}
use web_mail.Session.{Session}
use web_mail.Auth.{session_from_context}
use web_mail.Http.{
  Request, Writer, Value, string, int, bytes, json_with, set_header, write_header, write, not_found,
  http_error,
}
use web_mail.Storage.{Disk, FilePath, FileSystem, read_raw_mime}
use web_mail.Api.Params.{numeric_url_param, paging, Page}
use web_mail.Api.Sql.{
  Cell, text, Sql, Row, row, no_rows, failed, Statement, query_row, raw_message_auth_query,
  message_auth_query, list_where,
}
use web_mail.Api.Sql

-- What the handlers are made with: the database, and the storage with its directory.
pub record Deps : Type 0 where
  pub db : Sql
  pub disk : Disk
  pub base : FilePath
  pub fs : FileSystem

abbrev pub internal_error : Writer → Writer
internal_error = http_error 500 "Internal Server Error"

unfoldable pub send_raw : ℤ → Option Text → Writer → Writer
send_raw id none w = not_found w
send_raw id (some content) w = write (bytes content) (
    set_header "Content-Length" (format_nat (length content)) (
      set_header "Content-Disposition"
        (codes "attachment; filename=\"message-" ++ (format_int id ++ codes ".eml\""))
        (set_header "Content-Type" (codes "message/rfc822") w)))

-- Behind the Scan of the content hash.
unfoldable pub raw_of_row : Deps → ℤ → Row → Writer → Writer
unfolding send_raw
raw_of_row deps id no_rows w = not_found w
raw_of_row deps id (row (text hash ∷ [])) w =
    send_raw id (read_raw_mime deps.disk deps.base hash deps.fs) w
raw_of_row deps id _ w = internal_error w

unfoldable pub raw_for_session : Deps → ℤ → Option Session → Writer → Writer
unfolding raw_of_row
raw_for_session deps id none w = not_found w
raw_for_session deps id (some session) w =
    let q = raw_message_auth_query session id in
    raw_of_row deps id (query_row deps.db q.sql q.args) w

unfoldable pub raw_for_id : Deps → Option ℤ → Option Session → Writer → Writer
unfolding raw_for_session
raw_for_id deps none session w = not_found w
raw_for_id deps (some id) session w = raw_for_session deps id session w

-- `id_param` is the `{id}` of the route.
unfoldable pub get_raw_mime : Deps → Text → Request → Writer → Writer
unfolding raw_for_id
get_raw_mime deps id_param r w =
    raw_for_id deps (numeric_url_param id_param) (session_from_context r) w

unfoldable pub value_of : Cell → Value
value_of (Sql.int n) = int n
value_of (text t) = string t

-- The columns of a row under their JSON names; `none` if their number is wrong.
unfoldable pub named : List String → List Cell → Option (List (String × Value))
unfolding value_of
named [] [] = some []
named (k ∷ ks) (c ∷ cs) = Option.map (λ fields. (k, value_of c) ∷ fields) (named ks cs)
named _ _ = none

unfoldable pub all_named : List String → List (List Cell) → Option (List (List (String × Value)))
unfolding named
all_named names [] = some []
all_named names (r ∷ rows) = elim (named names r) [
  | none ↦ none
  | some fields ↦ Option.map (λ rest. fields ∷ rest) (all_named names rows)
]

abbrev pub in_order :
    List String → Option (List (List Cell)) → Option (List (List (String × Value)))
in_order names none = none
in_order names (some rows) = all_named names rows

abbrev recipients_sql : Text
recipients_sql =
    codes
      "SELECT recipient_email, recipient_type FROM message_recipients WHERE message_id = ? ORDER BY id"

unfoldable pub recipients : Deps → ℤ → Option (List (List (String × Value)))
unfolding all_named
recipients deps id =
    in_order ("email" ∷ "type" ∷ []) (deps.db.query recipients_sql (Sql.int id ∷ []))

abbrev attachments_sql : Text
attachments_sql =
    codes
      "SELECT id, COALESCE(original_filename,''), mime_type, size_bytes FROM attachments WHERE message_id = ? ORDER BY id"

unfoldable pub attachments : Deps → ℤ → Option (List (List (String × Value)))
unfolding all_named
attachments deps id =
    in_order ("id" ∷ "original_filename" ∷ "mime_type" ∷ "size_bytes" ∷ [])
      (deps.db.query attachments_sql (Sql.int id ∷ []))

abbrev pub message_columns : List String
message_columns =
    "id" ∷ "sender" ∷ "subject" ∷ "message_date" ∷ "received_at" ∷ "text_body" ∷ "html_body" ∷ []

-- getMessage: the row, then the recipients, then the attachments; the first error ends it.
pub data Found : Type 0 where
  message :
      List (String × Value) → List (List (String × Value)) → List (List (String × Value)) → Found
  absent : Found
  error : Found

unfoldable pub with_parts :
    Option (List (String × Value))
    → Option (List (List (String × Value)))
    → Option (List (List (String × Value)))
    → Found
with_parts (some fields) (some rs) (some as_) = message fields rs as_
with_parts _ _ _ = error

unfoldable pub message_of_row : Deps → ℤ → Row → Found
unfolding with_parts named recipients attachments
message_of_row deps id no_rows = absent
message_of_row deps id failed = error
message_of_row deps id (row cells) =
    with_parts (named (message_columns ++ "parser_status" ∷ []) cells) (recipients deps id)
      (attachments deps id)

unfoldable pub get_message_of : Deps → ℤ → Session → Found
unfolding message_of_row
get_message_of deps id session =
    let q = message_auth_query session id in message_of_row deps id (query_row deps.db q.sql q.args)

-- writeJSON with arrays in the object
abbrev pub write_object :
    List (String × Value) → List (String × List (List (String × Value))) → Writer → Writer
write_object fields arrays w =
    write (json_with fields arrays)
      (write_header 200 (set_header "Content-Type" (codes "application/json") w))

unfoldable pub send_message : Found → Writer → Writer
send_message (message fields rs as_) w =
    write_object fields (("recipients", rs) ∷ ("attachments", as_) ∷ []) w
send_message absent w = not_found w
send_message error w = internal_error w

unfoldable pub message_for_session : Deps → ℤ → Option Session → Writer → Writer
unfolding send_message get_message_of
message_for_session deps id none w = not_found w
message_for_session deps id (some session) w = send_message (get_message_of deps id session) w

unfoldable pub message_for_id : Deps → Option ℤ → Option Session → Writer → Writer
unfolding message_for_session
message_for_id deps none session w = not_found w
message_for_id deps (some id) session w = message_for_session deps id session w

unfoldable pub get_message : Deps → Text → Request → Writer → Writer
unfolding message_for_id
get_message deps id_param r w =
    message_for_id deps (numeric_url_param id_param) (session_from_context r) w

abbrev pub count_sql : Text
count_sql = codes "SELECT COUNT(DISTINCT m.id) FROM messages m "

abbrev pub list_sql : Text → Text
list_sql where_clause =
    codes
      "SELECT DISTINCT m.id, m.sender, COALESCE(m.subject,''), m.message_date, m.received_at, COALESCE(m.text_body,''), COALESCE(m.html_body,'')\nFROM messages m "
    ++ (where_clause ++ codes " ORDER BY m.received_at DESC LIMIT ? OFFSET ?")

unfoldable pub send_list : Page → ℤ → Option (List (List (String × Value))) → Writer → Writer
send_list page total none w = internal_error w
send_list page total (some listed) w =
    -- the field that the list's statement does not select
    let rows = map (λ fields. fields ++ ("parser_status", string []) ∷ []) listed in
    write_object
      (("total", int total) ∷ ("page", int page.page) ∷ ("per_page", int page.per_page) ∷ [])
      (("messages", rows) ∷ []) w

unfoldable pub list_of_count : Deps → Page → Statement → Row → Writer → Writer
unfolding send_list all_named
list_of_count deps page q (row (Sql.int total ∷ [])) w =
    send_list page total
      (in_order message_columns (
        deps.db.query (list_sql q.sql)
          (q.args ++ Sql.int page.per_page ∷ Sql.int page.offset ∷ [])))
      w
list_of_count deps page q _ w = internal_error w

unfoldable pub list_for_session : Deps → (String → Text) → Option Session → Writer → Writer
unfolding list_of_count
list_for_session deps param none w = not_found w
list_for_session deps param (some session) w =
    let page = paging (param "page") (param "per_page") in
    let q = list_where session (trim_space (param "q")) in
    list_of_count deps page q (query_row deps.db (count_sql ++ q.sql) q.args) w

-- `param` is Get of the URL's query.
unfoldable pub list_messages : Deps → (String → Text) → Request → Writer → Writer
unfolding list_for_session
list_messages deps param r w = list_for_session deps param (session_from_context r) w
