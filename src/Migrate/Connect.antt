-- ===== src/Migrate/Connect.antt =====
-- internal/db/migrate.go: Connect, normalizeMySQLDSN, Migrate and Rollback. What the driver's package
-- makes of a data source name is a parameter; Close is left out, as it changes no table.
use web_mail.Base.{
  Bool, true, ◌⊎◌, inl, inr, Option, none, some, List, Text, is_empty, trim_space, if◌then◌else◌,
}
use web_mail.Migrate.Load.{Files, Migration, load_migrations}
use web_mail.Migrate.Run.{Driver, Failure, run_migrations, rollback_migration}

-- The package github.com/go-sql-driver/mysql: ParseDSN, the field ParseTime of its result,
-- FormatDSN, and sql.Open and Ping with its driver.
pub record Mysql : Type 1 where
  pub Config : Type 0
  pub parse_dsn : Text → Option Config
  pub with_parse_time : Bool → Config → Config
  pub format_dsn : Config → Text
  pub driver : Driver
  pub open_database : Text → Option driver.State
  pub ping : driver.State → Bool

pub data ConnectError : Type 0 where
  dsn_error open_error ping_error : ConnectError

-- The errors of Migrate and Rollback.
pub data Error : Type 0 where
  connect_error : ConnectError → Error
  load_error : Error
  run_error : Failure → Error

module _ (lib : Mysql) where
  open lib use {Config, parse_dsn, with_parse_time, format_dsn, driver, open_database, ping}

  abbrev formatted : Option Config → Option Text
  formatted none = none
  formatted (some cfg) = some (format_dsn (with_parse_time true cfg))

  unfoldable pub normalize_mysql_dsn : Text → Option Text
  normalize_mysql_dsn dsn = if is_empty (trim_space dsn) then none else formatted (parse_dsn dsn)

  abbrev pinged : Option driver.State → ConnectError ⊎ driver.State
  pinged none = inl open_error
  pinged (some db) = if ping db then inr db else inl ping_error

  abbrev opened : Option Text → ConnectError ⊎ driver.State
  opened none = inl dsn_error
  opened (some dsn) = pinged (open_database dsn)

  unfoldable pub connect : Text → ConnectError ⊎ driver.State
  unfolding normalize_mysql_dsn
  connect dsn = opened (normalize_mysql_dsn dsn)

  -- The state, here and below, is that of the database behind a connection, if there is one.
  abbrev ended : driver.State × Option Failure → Option driver.State × Option Error
  ended (db, none) = (some db, none)
  ended (db, some e) = (some db, some (run_error e))

  abbrev with_loaded :
      (List Migration → driver.State → driver.State × Option Failure)
      → Option (List Migration)
      → driver.State
      → Option driver.State × Option Error
  with_loaded work none db = (some db, some load_error)
  with_loaded work (some ms) db = ended (work ms db)

  abbrev with_connection :
      (List Migration → driver.State → driver.State × Option Failure)
      → Option (List Migration)
      → ConnectError ⊎ driver.State
      → Option driver.State × Option Error
  with_connection work loaded (inl e) = (none, some (connect_error e))
  with_connection work loaded (inr db) = with_loaded work loaded db

  unfoldable pub migrate : Text → Files → Option driver.State × Option Error
  unfolding connect
  migrate database_url files =
      with_connection (run_migrations driver) (load_migrations files) (connect database_url)

  unfoldable pub rollback : Text → Files → Option driver.State × Option Error
  unfolding connect
  rollback database_url files =
      with_connection (rollback_migration driver) (load_migrations files) (connect database_url)
