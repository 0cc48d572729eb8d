-- ===== src/Tests.antt =====
-- Concrete configurations, requests and environments, on which the theorems are tried.
pub mod Auth
pub mod Limits
pub mod Storage
pub mod Api
pub mod Shown
pub mod Ingest
pub mod Parser
pub mod Server
pub mod History
pub mod Delivery
pub mod Migrate
pub mod Main
use web_mail.Base.{true, false, none, some, [], ◌∷◌, Text, codes, pos, ◌*◌, ◌/◌}
use web_mail.Config.{Config}
use web_mail.Session.{Session, Store}
use web_mail.Http.{Request}
use web_mail.Storage.{Disk, FilePath, whole}

abbrev pub config : Config
config = record {
  database_url = codes "mail:secret@tcp(localhost:3306)/mail";
  data_dir = codes "/var/lib/mail";
  public_base_url = codes "https://mail.example";
  max_message_bytes = pos 20;
  session_cookie_name = codes "sid";
  session_ttl_hours = pos 24;
  normal_user_psk = codes "user";
  admin_psk = codes "root";
  worker_ingest_psk = codes "worker";
  server_addr = codes ":8080";
  app_env = codes "production";
}

abbrev pub post : Request
post = record {
  method = codes "POST";
  path = codes "/login";
  headers = [];
  cookies = [];
  remote_addr = codes "192.0.2.7:4000";
  content_length = pos 0;
  body = [];
  body_fails = false;
  body_limit = none;
  request_id = none;
  session = none;
}

abbrev pub ann : Session
ann = record {
  email = codes "ann@mail.example";
  is_admin = false;
  expires_at = pos 1000;
  token = codes "0a0b";
}

abbrev pub store_of_ann : Store
store_of_ann = record { sessions = (codes "0a0b", ann) ∷ [] }

abbrev pub signed_in : Request
signed_in = record post { cookies = (codes "sid", codes "0a0b") ∷ [] }

abbrev pub disk : Disk
disk = record {
  stat_fails = λ p. false;
  mkdir_fails = λ p. false;
  read_fails = λ p. false;
  written = λ p content. whole;
}

abbrev pub base : FilePath
base = codes "data" ∷ []
