-- ===== src/Main/Startup.antt =====
-- What holds when the server is started.
use web_mail.Base.{
  ◌≡◌, refl, subst, Bool, true, false, ◌⊎◌, inl, inr, Option, none, some, List, All,
}
use web_mail.Config.{Config, load}
use web_mail.Storage.{FileSystem, new_storage}
use web_mail.Storage.Layout.{IsLaidOut, new_storage-IsLaidOut}
use web_mail.Server.{complete}
use web_mail.Migrate.Load.{Migration, load_migrations}
use web_mail.Migrate.Run.{Failure, run_migrations}
use web_mail.Migrate.Progress.{IsLawful, IsSparing, AreApplied, run_migrations-AreApplied}
use web_mail.Migrate.Connect.{ConnectError, connect}
use web_mail.Main.{
  Machine, Db, Started, exited, panicked, ready, made, new_server, migrated, loaded, connected,
  startup,
}

module _ (m : Machine) where
  -- What the server finds.
  pub record IsReady (cfg : Config) (db : Db m) (fs : FileSystem) : Type 0 where
    pub configured : cfg ≡ complete (load m.getenv)
    pub migrations : List Migration
    pub loaded : load_migrations m.files ≡ some migrations
    pub applied : AreApplied m.mysql.driver migrations db
    pub laid_out : IsLaidOut m.disk (m.path cfg.data_dir) m.file_system fs

  abbrev IfReady : Started m → Type 0
  IfReady (exited stage) = Unit
  IfReady panicked = Unit
  IfReady (ready cfg db fs) = IsReady cfg db fs

  module _ (laws : IsLawful m.mysql.driver)
      (spares : (ms : List Migration)
        → load_migrations m.files ≡ some ms
        → All (IsSparing m.mysql.driver) ms) where
    made-IfReady :
        (ms : List Migration) (db : Db m) (o : FileSystem × Bool)
        → load_migrations m.files ≡ some ms
        → AreApplied m.mysql.driver ms db
        → new_storage m.disk
            (complete (load m.getenv)).data_dir
            (m.path (complete (load m.getenv)).data_dir)
            m.file_system
          ≡ o
        → IfReady (made m (complete (load m.getenv)) db o)
    made-IfReady ms db (fs, false) loaded applied e = tt
    made-IfReady ms db (fs, true) loaded applied e = record {
      configured = refl;
      migrations = ms;
      loaded = loaded;
      applied = applied;
      laid_out = new_storage-IsLaidOut m.disk _ _ m.file_system fs e;
    }

    migrated-IfReady :
        (ms : List Migration) (db : Db m) (o : Db m × Option Failure)
        → load_migrations m.files ≡ some ms
        → run_migrations m.mysql.driver ms db ≡ o
        → IfReady (migrated m (load m.getenv) o)
    unfolding new_server
    migrated-IfReady ms db (db', some e) loaded ran = tt
    migrated-IfReady ms db (db', none) loaded ran =
        made-IfReady ms db' _ loaded
          (run_migrations-AreApplied m.mysql.driver ms db db' laws (spares ms loaded) ran) refl

    loaded-IfReady :
        (db : Db m) (o : Option (List Migration))
        → load_migrations m.files ≡ o
        → IfReady (loaded m (load m.getenv) o db)
    loaded-IfReady db none e = tt
    loaded-IfReady db (some ms) e = migrated-IfReady ms db _ e refl

    connected-IfReady : (o : ConnectError ⊎ Db m) → IfReady (connected m (load m.getenv) o)
    connected-IfReady (inl e) = tt
    connected-IfReady (inr db) = loaded-IfReady db _ refl

    -- The server is started only with the completed configuration, on a database to which every
    -- migration that was loaded is applied, and with both directories of the storage there and every
    -- file of the disk kept: if the driver keeps the table of versions as `IsLawful` says, and no
    -- statement of the migrations takes a row out of it.
    pub startup-IsReady :
        (cfg : Config) (db : Db m) (fs : FileSystem)
        → startup m ≡ ready cfg db fs
        → IsReady cfg db fs
    unfolding startup
    startup-IsReady cfg db fs e =
        subst IfReady e (connected-IfReady (connect m.mysql (load m.getenv).database_url))
