-- ===== src/Config.antt =====
-- internal/config/config.go: the settings of the server and how they are read from the environment.
-- `env` is os.Getenv, which gives "" for a variable that is not set.
use web_mail.Base.{
  ℕ, String, [], Option, none, some, Text, codes, is_empty, ℤ, pos, ◌*ℤ◌, wrap64, if◌then◌else◌,
}
use web_mail.Strconv.{parse_int}

pub record Config : Type 0 where
  pub database_url : Text
  pub data_dir : Text
  pub public_base_url : Text
  pub max_message_bytes : ℤ
  pub session_cookie_name : Text
  pub session_ttl_hours : ℤ
  pub normal_user_psk : Text
  pub admin_psk : Text
  pub worker_ingest_psk : Text
  pub server_addr : Text
  pub app_env : Text

unfoldable pub get_env : (String → Text) → String → Text → Text
get_env env key default_value = if is_empty (env key) then default_value else env key

abbrev or_else : Option ℤ → ℤ → ℤ
or_else none d = d
or_else (some i) d = i

unfoldable pub get_env_int : (String → Text) → String → ℤ → ℤ
get_env_int env key default_value =
    if is_empty (env key) then default_value else or_else (parse_int (env key)) default_value

unfoldable pub load : (String → Text) → Config
unfolding get_env get_env_int
load env = record {
  database_url = get_env env "DATABASE_URL" [];
  data_dir = get_env env "DATA_DIR" (codes "./data");
  public_base_url = get_env env "PUBLIC_BASE_URL" (codes "http://localhost:8080");
  max_message_bytes = get_env_int env "MAX_MESSAGE_BYTES" (pos 26214400);
  session_cookie_name = get_env env "SESSION_COOKIE_NAME" (codes "lite_mail_session");
  session_ttl_hours = get_env_int env "SESSION_TTL_HOURS" (pos 24);
  normal_user_psk = get_env env "NORMAL_USER_PSK" [];
  admin_psk = get_env env "ADMIN_PSK" [];
  worker_ingest_psk = get_env env "WORKER_INGEST_PSK" [];
  server_addr = get_env env "SERVER_ADDR" (codes ":8080");
  app_env = get_env env "APP_ENV" (codes "production");
}

-- time.Hour, in nanoseconds
abbrev pub hour : ℕ
hour = 3600000000000

-- A time.Duration is an int64 of nanoseconds, so the product wraps around.
unfoldable pub session_ttl : Config → ℤ
unfolding ◌*ℤ◌ wrap64
session_ttl c = wrap64 (c.session_ttl_hours *ℤ pos hour)
