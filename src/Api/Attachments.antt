-- ===== src/Api/Attachments.antt =====
-- internal/api/attachments.go: GetAttachment.
use web_mail.Base.{Option, none, some, [], ◌∷◌, ◌++◌, Text, codes, is_empty, ℤ, if◌then◌else◌}
use web_mail.Strconv.{format_int}
use web_mail.Session.{Session}
use web_mail.Auth.{session_from_context}
use web_mail.Http.{Request, Writer, bytes, set_header, write, not_found}
use web_mail.Storage.{read_attachment}
use web_mail.Api.Params.{numeric_url_param, numeric_url_param_allow_zero, sanitize_filename}
use web_mail.Api.Sql.{int, text, Row, row, no_rows, query_row, attachment_auth_query}
use web_mail.Api.Messages.{Deps, internal_error}

-- The name that the header offers.
unfoldable pub offered_name : Text → Text
offered_name original =
    if is_empty (sanitize_filename original) then codes "attachment" else sanitize_filename original

unfoldable pub send_attachment : Text → Text → ℤ → Option Text → Writer → Writer
unfolding offered_name
send_attachment original mime_type size none w = not_found w
send_attachment original mime_type size (some content) w = write (bytes content) (
    set_header "Content-Length" (format_int size) (
      set_header "Content-Disposition"
        (codes "attachment; filename=\"" ++ (offered_name original ++ codes "\""))
        (set_header "Content-Type" mime_type w)))

unfoldable pub attachment_of_row : Deps → ℤ → Row → Writer → Writer
unfolding send_attachment
attachment_of_row deps id no_rows w = not_found w
attachment_of_row deps id (row (text key ∷ text original ∷ text mime_type ∷ int size ∷ [])) w =
    send_attachment original mime_type size (read_attachment deps.disk deps.base id key deps.fs) w
attachment_of_row deps id _ w = internal_error w

unfoldable pub attachment_for_session : Deps → ℤ → ℤ → Option Session → Writer → Writer
unfolding attachment_of_row
attachment_for_session deps id idx none w = not_found w
attachment_for_session deps id idx (some session) w =
    let q = attachment_auth_query session id idx in
    attachment_of_row deps id (query_row deps.db q.sql q.args) w

unfoldable pub attachment_for_ids : Deps → Option ℤ → Option ℤ → Option Session → Writer → Writer
unfolding attachment_for_session
attachment_for_ids deps (some id) (some idx) session w =
    attachment_for_session deps id idx session w
attachment_for_ids deps _ _ session w = not_found w

-- The parameters are the `{id}` and the `{idx}` of the route.
unfoldable pub get_attachment : Deps → Text → Text → Request → Writer → Writer
unfolding attachment_for_ids
get_attachment deps id_param idx_param r w =
    attachment_for_ids deps (numeric_url_param id_param) (numeric_url_param_allow_zero idx_param)
      (session_from_context r) w
