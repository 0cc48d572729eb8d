-- ===== src/Api/Responses.antt =====
-- How the handlers of internal/api answer.
use web_mail.Base.{
  String, ◌≡◌, refl, List, Option, none, some, [], ◌∷◌, ◌++◌, Text, codes, text_eq, trim_space, ℤ,
}
use web_mail.Session.{Session}
use web_mail.Http.{Request, Writer, Value, http_error}
use web_mail.Http.Response.{Responds, here, header, content, set_status}
use web_mail.Middleware.{framed}
use web_mail.Middleware.Responses.{http_error-Responds}
use web_mail.Api.Params.{numeric_url_param, numeric_url_param_allow_zero, paging, Page}
use web_mail.Api.Sql.{Cell, int, text, Row, row, no_rows, failed, Statement, query_row, list_where}
use web_mail.Api.Messages.{
  Deps, send_raw, raw_of_row, raw_for_session, raw_for_id, get_raw_mime, Found, message, absent,
  error, write_object, send_message, get_message_of, message_for_session, message_for_id,
  get_message, send_list, list_of_count, list_for_session, list_messages, count_sql,
}
use web_mail.Api.Attachments.{
  send_attachment, attachment_of_row, attachment_for_session, attachment_for_ids, get_attachment,
}

module _ {request : Text} (deps : Deps) (w : Writer) (fresh : w.sent ≡ none) where
  not_found-Responds : Responds (framed request) w (http_error 404 "404 page not found" w)
  not_found-Responds = http_error-Responds 404 _ fresh here

  failed-Responds : Responds (framed request) w (http_error 500 "Internal Server Error" w)
  failed-Responds = http_error-Responds 500 _ fresh here

  send_raw-Responds :
      (id : ℤ) (found : Option Text) → Responds (framed request) w (send_raw id found w)
  unfolding send_raw text_eq
  send_raw-Responds id none = not_found-Responds
  send_raw-Responds id (some c) =
      content _ (header _ _ refl (header _ _ refl (header _ _ refl here)))

  raw_of_row-Responds :
      (id : ℤ) (found : Row) → Responds (framed request) w (raw_of_row deps id found w)
  unfolding raw_of_row
  raw_of_row-Responds id no_rows = not_found-Responds
  raw_of_row-Responds id failed = failed-Responds
  raw_of_row-Responds id (row []) = failed-Responds
  raw_of_row-Responds id (row (int n ∷ cells)) = failed-Responds
  raw_of_row-Responds id (row (text hash ∷ c ∷ cells)) = failed-Responds
  raw_of_row-Responds id (row (text hash ∷ [])) = send_raw-Responds id _

  raw_for_id-Responds :
      (named : Option ℤ) (who : Option Session)
      → Responds (framed request) w (raw_for_id deps named who w)
  unfolding raw_for_id raw_for_session
  raw_for_id-Responds none who = not_found-Responds
  raw_for_id-Responds (some id) none = not_found-Responds
  raw_for_id-Responds (some id) (some session) = raw_of_row-Responds id _

  pub get_raw_mime-Responds :
      (id_param : Text) (r : Request) → Responds (framed request) w (get_raw_mime deps id_param r w)
  unfolding get_raw_mime
  get_raw_mime-Responds id_param r = raw_for_id-Responds (numeric_url_param id_param) r.session

  write_object-Responds :
      (fields : List (String × Value)) (arrays : List (String × List (List (String × Value))))
      → Responds (framed request) w (write_object fields arrays w)
  unfolding text_eq
  write_object-Responds fields arrays =
      content _ (set_status 200 fresh (header "Content-Type" (codes "application/json") refl here))

  send_message-Responds : (found : Found) → Responds (framed request) w (send_message found w)
  unfolding send_message
  send_message-Responds (message fields rs as_) = write_object-Responds fields _
  send_message-Responds absent = not_found-Responds
  send_message-Responds error = failed-Responds

  message_for_id-Responds :
      (named : Option ℤ) (who : Option Session)
      → Responds (framed request) w (message_for_id deps named who w)
  unfolding message_for_id message_for_session
  message_for_id-Responds none who = not_found-Responds
  message_for_id-Responds (some id) none = not_found-Responds
  message_for_id-Responds (some id) (some session) =
      send_message-Responds (get_message_of deps id session)

  pub get_message-Responds :
      (id_param : Text) (r : Request) → Responds (framed request) w (get_message deps id_param r w)
  unfolding get_message
  get_message-Responds id_param r = message_for_id-Responds (numeric_url_param id_param) r.session

  send_list-Responds :
      (page : Page) (total : ℤ) (listed : Option (List (List (String × Value))))
      → Responds (framed request) w (send_list page total listed w)
  unfolding send_list
  send_list-Responds page total none = failed-Responds
  send_list-Responds page total (some listed) = write_object-Responds _ _

  list_of_count-Responds :
      (page : Page) (q : Statement) (found : Row)
      → Responds (framed request) w (list_of_count deps page q found w)
  unfolding list_of_count
  list_of_count-Responds page q no_rows = failed-Responds
  list_of_count-Responds page q failed = failed-Responds
  list_of_count-Responds page q (row []) = failed-Responds
  list_of_count-Responds page q (row (text t ∷ cells)) = failed-Responds
  list_of_count-Responds page q (row (int total ∷ c ∷ cells)) = failed-Responds
  list_of_count-Responds page q (row (int total ∷ [])) = send_list-Responds page total _

  list_for_session-Responds :
      (param : String → Text) (who : Option Session)
      → Responds (framed request) w (list_for_session deps param who w)
  unfolding list_for_session
  list_for_session-Responds param none = not_found-Responds
  list_for_session-Responds param (some session) =
      let q = list_where session (trim_space (param "q")) in
      list_of_count-Responds (paging (param "page") (param "per_page")) q
        (query_row deps.db (count_sql ++ q.sql) q.args)

  pub list_messages-Responds :
      (param : String → Text) (r : Request)
      → Responds (framed request) w (list_messages deps param r w)
  unfolding list_messages
  list_messages-Responds param r = list_for_session-Responds param r.session

  send_attachment-Responds :
      (original mime_type : Text) (size : ℤ) (found : Option Text)
      → Responds (framed request) w (send_attachment original mime_type size found w)
  unfolding send_attachment text_eq
  send_attachment-Responds original mime_type size none = not_found-Responds
  send_attachment-Responds original mime_type size (some c) =
      content _ (header _ _ refl (header _ _ refl (header _ _ refl here)))

  attachment_of_row-Responds :
      (id : ℤ) (found : Row) → Responds (framed request) w (attachment_of_row deps id found w)
  unfolding attachment_of_row
  attachment_of_row-Responds id no_rows = not_found-Responds
  attachment_of_row-Responds id failed = failed-Responds
  attachment_of_row-Responds id (row cells) = of_cells cells
    where
      of_cells :
          (cs : List Cell) → Responds (framed request) w (attachment_of_row deps id (row cs) w)
      of_cells (text k ∷ text o ∷ text m ∷ int n ∷ []) = send_attachment-Responds o m n _
      of_cells _ = failed-Responds

  attachment_for_ids-Responds :
      (id idx : Option ℤ) (who : Option Session)
      → Responds (framed request) w (attachment_for_ids deps id idx who w)
  unfolding attachment_for_ids attachment_for_session
  attachment_for_ids-Responds none idx who = not_found-Responds
  attachment_for_ids-Responds (some id) none who = not_found-Responds
  attachment_for_ids-Responds (some id) (some idx) none = not_found-Responds
  attachment_for_ids-Responds (some id) (some idx) (some session) = attachment_of_row-Responds id _

  pub get_attachment-Responds :
      (id_param idx_param : Text) (r : Request)
      → Responds (framed request) w (get_attachment deps id_param idx_param r w)
  unfolding get_attachment
  get_attachment-Responds id_param idx_param r =
      attachment_for_ids-Responds (numeric_url_param id_param)
        (numeric_url_param_allow_zero idx_param) r.session
