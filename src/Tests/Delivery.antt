-- ===== src/Tests/Delivery.antt =====
-- Requests for stored messages after a login.
use web_mail.Base.{trim_space, to_lower, keep, ◌≡◌, refl, some, [], codes, text_eq}
use web_mail.Base.Assoc.{get, put}
use web_mail.Strconv.{parse_int, format_int}
use web_mail.Session.{create, generate_token}
use web_mail.Auth.{require_auth, login_handler, check_psk}
use web_mail.Middleware.{request_id, security_headers, cors, max_body_size}
use web_mail.Middleware.RateLimit.{rate_limit, allow, recovered}
use web_mail.Api.Params.{numeric_url_param, numeric_url_param_allow_zero, sanitize_filename}
use web_mail.Api.Attachments.{get_attachment}
use web_mail.Api.Sql.{
  query_row, attachment_for_user, attachment_auth_query, raw_for_user, raw_message_auth_query,
  message_for_user, message_auth_query,
}
use web_mail.Api.Messages.{get_raw_mime, get_message}
use web_mail.Http.{status_of, new_writer, write_json}
use web_mail.Config.{session_ttl}
use web_mail.Storage.{
  save_raw_mime, save_attachment, read_attachment, read_raw_mime, validate_key, path_eq,
}
use web_mail.Server.{Env, raw, message, new, handle, serve}
use web_mail.Server.Delivery.{IsRawAnswer, IsAttachmentAnswer}
use web_mail.Server.Delivery.Message.{IsMessageAnswer}
use web_mail.Server.Delivery.Listing.{IsListAnswer}
use web_mail.Server.{messages}
use web_mail.Tests.Shown.{
  list_answers, IsListedRow, list_answers-ShowsLists, rows, message_answers,
  message_answers-ShowsMessages,
}
use web_mail.Api.Messages.{list_messages, send_list, all_named}
use web_mail.Api.Sql.{list_where, where_of, join_and}
use web_mail.Api.Params.{paging, is_search_query_usable}
use web_mail.Server.History.{run, IsOpened}
use web_mail.Server.History.Privacy.{
  run-IsRawAnswer, run-IsAttachmentAnswer, run-IsMessageAnswer, run-IsListAnswer,
}
use web_mail.Tests.Api.{tables, raw_answers-Answers, attachment_answers-Answers}
use web_mail.Tests.Server.{env_of, stored, wanted, attached, env_with_attachment}
use web_mail.Tests.History.{events}

after_login :
    status_of (serve (env_of (raw (codes "7"))) wanted (run stored events).0 new_writer).1
    ≡ some 200
unfolding run serve request_id security_headers cors text_eq require_auth login_handler create
    generate_token check_psk get put get_raw_mime numeric_url_param parse_int format_int query_row
    raw_for_user raw_message_auth_query read_raw_mime validate_key new save_raw_mime path_eq handle
    rate_limit allow max_body_size write_json to_lower trim_space keep recovered session_ttl
after_login = refl

run-IsRawAnswer_example :
    (d : IsRawAnswer
      (env_of (raw (codes "7")))
      (codes "7")
      wanted
      (run stored events).0
      new_writer
      (serve (env_of (raw (codes "7"))) wanted (run stored events).0 new_writer).1
      tables)
    × IsOpened d.session (run stored events).1
run-IsRawAnswer_example =
    run-IsRawAnswer stored events (env_of (raw (codes "7"))) wanted tables (codes "7") (λ i. refl)
      raw_answers-Answers after_login

attachment_after_login :
    status_of (serve env_with_attachment wanted (run attached events).0 new_writer).1 ≡ some 200
unfolding run serve request_id security_headers cors text_eq require_auth login_handler create
    generate_token check_psk get put get_attachment numeric_url_param numeric_url_param_allow_zero
    parse_int format_int query_row attachment_for_user attachment_auth_query read_attachment
    validate_key new save_attachment path_eq handle sanitize_filename rate_limit allow max_body_size
    write_json to_lower trim_space keep recovered session_ttl
attachment_after_login = refl

run-IsAttachmentAnswer_example :
    (d : IsAttachmentAnswer env_with_attachment
      (codes "7")
      wanted
      (run attached events).0
      new_writer
      (serve env_with_attachment wanted (run attached events).0 new_writer).1
      tables)
    × IsOpened d.session (run attached events).1
run-IsAttachmentAnswer_example =
    run-IsAttachmentAnswer attached events env_with_attachment wanted tables (codes "7") (codes "0")
      (λ i. refl) attachment_answers-Answers attachment_after_login

abbrev message_env : Env
message_env = record (env_of (message (codes "7"))) { sql = λ db. message_answers }

shown_after_login :
    status_of (serve message_env wanted (run stored events).0 new_writer).1 ≡ some 200
unfolding run serve request_id security_headers cors text_eq require_auth login_handler create
    generate_token check_psk get put get_message numeric_url_param parse_int format_int query_row
    message_for_user message_auth_query new handle rate_limit allow max_body_size write_json
    to_lower trim_space keep recovered session_ttl
shown_after_login = refl

run-IsMessageAnswer_example :
    (d : IsMessageAnswer message_env
      (codes "7")
      wanted
      (run stored events).0
      new_writer
      (serve message_env wanted (run stored events).0 new_writer).1
      tables
      rows)
    × IsOpened d.session (run stored events).1
run-IsMessageAnswer_example =
    run-IsMessageAnswer stored events message_env wanted tables rows (codes "7") (λ i. refl)
      message_answers-ShowsMessages shown_after_login

abbrev list_env : Env
list_env = record (env_of (messages (λ key. []))) { sql = λ db. list_answers }

listed_after_login : status_of (serve list_env wanted (run stored events).0 new_writer).1 ≡ some 200
unfolding run serve request_id security_headers cors text_eq require_auth login_handler create
    generate_token check_psk get put list_messages paging list_where is_search_query_usable where_of
    join_and all_named send_list query_row new handle rate_limit allow max_body_size write_json
    to_lower trim_space keep recovered session_ttl
listed_after_login = refl

run-IsListAnswer_example :
    (d : IsListAnswer list_env
      (λ key. [])
      wanted
      (run stored events).0
      new_writer
      (serve list_env wanted (run stored events).0 new_writer).1
      tables
      IsListedRow)
    × IsOpened d.session (run stored events).1
run-IsListAnswer_example =
    run-IsListAnswer stored events list_env wanted tables IsListedRow (λ key. []) (λ i. refl)
      list_answers-ShowsLists listed_after_login
