-- ===== src/Tests/Server.antt =====
-- Requests to the router: for a stored message, and without the worker's PSK.
use web_mail.Base.{Text, inl, ◌≡◌, refl, none, [], codes, pos}
use web_mail.Middleware.Responses.{http_error-Responds}
use web_mail.Server.Responses.{answer, serve-HasAll}
use web_mail.Middleware.{framed, request_id_of}
use web_mail.Http.{header_get, Request, Writer, new_writer, http_error}
use web_mail.Http.Response.{Responds, here, HasAll}
use web_mail.Storage.{FileSystem, save_raw_mime, save_attachment}
use web_mail.Ingest.Handler.{State}
use web_mail.Server.{Env, App, Route, attachment, ingest, elsewhere, new, serve}
use web_mail.Server.Changes.{serve-Keeps}
use web_mail.Tests.{config, post, signed_in, store_of_ann, disk, base}
use web_mail.Tests.Api.{raw_answers, attachment_answers}
use web_mail.Tests.Ingest.{no_faults, parsing, empty_database}
use web_mail.Tests.Limits.{exact}

abbrev pub no_files : FileSystem
no_files p = none

-- An environment in which every request is for one route.
abbrev pub env_of : Route → Env
env_of route = record {
  config = config;
  table = λ c. c;
  float64 = exact;
  now = pos 1000;
  instant = 0;
  random_id = [];
  random_token = none;
  decoded = none;
  parsing = parsing;
  faults = no_faults;
  disk = disk;
  base = base;
  sql = λ db. raw_answers;
  index_html = none;
  route = λ r. route;
  foreign = λ r w. http_error 404 "404 page not found" w;
}

abbrev pub stored : State
stored = record {
  database = empty_database;
  files = (save_raw_mime disk base (codes "c0ffee") (codes "Subject: hi") no_files).0;
}

abbrev app : App
app = record (new stored) { sessions = store_of_ann }

abbrev pub wanted : Request
wanted = record signed_in { method = codes "GET" }

abbrev pub attached : State
attached = record {
  database = empty_database;
  files = (save_attachment disk base (pos 7) (codes "beef") (codes "x") no_files).0;
}

abbrev pub env_with_attachment : Env
env_with_attachment = record (env_of (attachment (codes "7") (codes "0"))) {
  sql = λ db. attachment_answers;
}

-- No PSK is set for the worker, and the header of the request is empty too.
abbrev unset_env : Env
unset_env = record (env_of ingest) { config = record config { worker_ingest_psk = [] } }

serve-Keeps_example : (serve unset_env post app new_writer).0.mail ≡ app.mail
serve-Keeps_example = serve-Keeps unset_env post app new_writer refl (inl refl)

pub chi_answers :
    (id : Text) (r : Request) (w : Writer)
    → w.sent ≡ none
    → Responds (framed id) w ((env_of elsewhere).foreign r w)
chi_answers id r w fresh = http_error-Responds 404 _ fresh here

serve-HasAll_example :
    HasAll
      (framed (request_id_of [] (header_get "X-Request-ID" post.headers)))
      (answer (serve (env_of elsewhere) post app new_writer).1).headers
serve-HasAll_example = serve-HasAll (env_of elsewhere) chi_answers post app new_writer refl
