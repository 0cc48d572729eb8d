-- ===== src/Main.antt =====
-- cmd/server/main.go: the server is started on a migrated database, and stopped by a signal. Shutdown
-- is the stopping; the other child modules hold what they guarantee.
pub mod Startup
pub mod Shutdown
pub mod Consistent
pub mod Stopping
pub mod Skipped
use web_mail.Base.{String, Bool, true, false, ◌⊎◌, inl, inr, Option, none, some, List, Text}
use web_mail.Config.{Config, load}
use web_mail.Storage.{Disk, FilePath, FileSystem, new_storage}
use web_mail.Server.{complete}
use web_mail.Migrate.Load.{Files, Migration, load_migrations}
use web_mail.Migrate.Run.{Failure, run_migrations}
use web_mail.Migrate.Connect.{Mysql, ConnectError, connect}

-- What the process starts with: the variables, the database, the embedded migrations and the disk.
-- `path` is how the disk reads the name of a directory.
pub record Machine : Type 1 where
  pub getenv : String → Text
  pub mysql : Mysql
  pub files : Files
  pub disk : Disk
  pub path : Text → FilePath
  pub file_system : FileSystem

-- The errors that end the process with code 1.
pub data Stage : Type 0 where
  connecting : ConnectError → Stage
  loading : Stage
  migrating : Failure → Stage

module _ (m : Machine) where
  abbrev pub Db : Type 0
  Db = m.mysql.driver.State

  -- Where main stands when the server is made: it has left the process, server.New has panicked, or
  -- the server can be started with a configuration, a database and a file system.
  pub data Started : Type 0 where
    exited : Stage → Started
    panicked : Started
    ready : Config → Db → FileSystem → Started

  abbrev pub made : Config → Db → FileSystem × Bool → Started
  made cfg db (fs, false) = panicked
  made cfg db (fs, true) = ready cfg db fs

  -- server.New, as far as it can fail
  unfoldable pub new_server : Config → Db → Started
  unfolding new_storage
  new_server cfg db =
      made cfg db (new_storage m.disk cfg.data_dir (m.path cfg.data_dir) m.file_system)

  abbrev pub migrated : Config → Db × Option Failure → Started
  migrated cfg (db, some e) = exited (migrating e)
  migrated cfg (db, none) = new_server (complete cfg) db

  abbrev pub loaded : Config → Option (List Migration) → Db → Started
  loaded cfg none db = exited loading
  loaded cfg (some ms) db = migrated cfg (run_migrations m.mysql.driver ms db)

  abbrev pub connected : Config → ConnectError ⊎ Db → Started
  connected cfg (inl e) = exited (connecting e)
  connected cfg (inr db) = loaded cfg (load_migrations m.files) db

  -- main up to the start of the server; Load returns no error.
  unfoldable pub startup : Started
  unfolding connect new_server
  startup = let cfg = load m.getenv in connected cfg (connect m.mysql cfg.database_url)
