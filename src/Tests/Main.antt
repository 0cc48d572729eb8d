-- ===== src/Tests/Main.antt =====
-- A process that is started and stopped.
use text.Mathlib.Text.{◌==◌}
use web_mail.Base.{
  inr, if◌then◌else◌, has_prefix, cut_at, is_among, has_suffix, keep, split, join, Bool, pos, ◌≤◌,
  text_eq, is_empty, trim_space, trim_left, ◌≡◌, refl, ◌⊎◌, true, false, none, some, List, [], ◌∷◌,
  String, Text, codes, ℤ, All, if◌then◌else◌,
}
use web_mail.Config.{load, get_env, get_env_int}
use web_mail.Strconv.{format_nat, parse_int}
use web_mail.Server.{complete}
use web_mail.Migrate.Progress.{IsSparing}
use web_mail.Migrate.Statements.{split_sql, statement_of, is_kept}
use web_mail.Storage.{new_storage, FilePath, FileSystem}
use web_mail.Migrate.Load.{
  Migration, load_migrations, choose, title, load_root, load_from, read_all, sort, collect,
  of_entry, of_parts, scan_int, read_migration, insert, padded, has_up_migration, has_dir,
}
use web_mail.Migrate.Run.{run_migrations, step, is_migration_applied, exec_all}
use web_mail.Migrate.Connect.{Mysql, connect, normalize_mysql_dsn}
use web_mail.Migrate.Dsn.{IsFaithful, connect_lem}
use web_mail.Main.Shutdown
use web_mail.Main.Shutdown.{
  Process, initial, Reaches, here, onward, Ends, signal_arrives, assign, listen, close_listener,
  close_clean, take_signal, begin_shutdown, skip_shutdown, drained, await_closed, awaiting, exited,
  done,
}
use web_mail.Main.{Machine, ready, new_server, startup}
use web_mail.Main.Startup.{IsReady, startup-IsReady}
use web_mail.Tests.{disk, base}
use web_mail.Tests.Migrate.{driver, driver-IsLawful, files, harmless, times, same}
use web_mail.Main.Stopping.{exit-IsClean, signal-Ends}
use web_mail.Main.Skipped.{skipped_shutdown}

-- A signal arrives while the server accepts connections.
abbrev called : Process
called = record initial { server = Shutdown.listening; http = true; signal = true }

called_reached : Reaches initial called
called_reached =
    onward (onward (onward here (assign refl)) (listen refl refl)) (signal_arrives refl)

signal-Ends_example : Ends called
signal-Ends_example = signal-Ends called called_reached refl refl refl

abbrev told : Process
told = record called { main = Shutdown.draining; closing = true; signal = false }

told_reached : Reaches initial told
told_reached = onward (onward called_reached (take_signal refl refl)) (begin_shutdown refl refl)

abbrev left : Process
left = record told { main = exited 0; server = done false; closed = true }

left_reached : Reaches initial left
left_reached =
    onward
      (onward (onward (onward told_reached (drained refl)) (close_listener refl refl))
        (close_clean refl))
      (await_closed refl refl refl)

exit-IsClean_example : (left.closing ≡ true) × (left.server ≡ done false)
exit-IsClean_example = exit-IsClean left left_reached refl

-- The signal arrives before the goroutine has set s.http.
abbrev early : Process
early = record initial { main = awaiting }

early_reached : Reaches initial early
early_reached =
    onward (onward (onward here (signal_arrives refl)) (take_signal refl refl))
      (skip_shutdown refl refl)

abbrev serving : Process
serving = record early { server = Shutdown.listening; http = true; signal = true }

skipped_shutdown_example :
    (serving.closing ≡ false) × ((serving.main ≡ awaiting) ⊎ (serving.main ≡ exited 1))
skipped_shutdown_example =
    skipped_shutdown early serving early_reached refl refl
      (onward (onward (onward here (assign refl)) (listen refl refl)) (signal_arrives refl))

-- A driver that knows one database, with and without parseTime.
abbrev mysql : Mysql
mysql = record {
  Config = Bool;
  parse_dsn = λ dsn. some (text_eq dsn (codes "db?parseTime=true"));
  with_parse_time = λ b c. b;
  format_dsn = λ c. if c then codes "db?parseTime=true" else codes "db";
  driver = driver;
  open_database = λ dsn. if text_eq dsn (codes "db?parseTime=true") then some [] else none;
  ping = λ s. true;
}

mysql-not_blank : (c : Bool) → is_empty (trim_space (mysql.format_dsn c)) ≡ false
unfolding trim_space trim_left
mysql-not_blank true = refl
mysql-not_blank false = refl

mysql-read_back : (c : Bool) → Unit {0} → mysql.parse_dsn (mysql.format_dsn c) ≡ some c
unfolding text_eq
mysql-read_back true n = refl
mysql-read_back false n = refl

mysql-IsFaithful : IsFaithful mysql
mysql-IsFaithful = record {
  set_twice = λ c. refl;
  IsNormal = λ c. Unit;
  parsed_normal = λ dsn c e. tt;
  set_normal = λ c n. tt;
  read_back = mysql-read_back;
  not_blank = mysql-not_blank;
}

connect_test : connect mysql (codes "db") ≡ inr []
unfolding connect normalize_mysql_dsn trim_space trim_left text_eq
connect_test = refl

connect_lem_example :
    (c : Bool) × (out : Text) × (mysql.parse_dsn (codes "db") ≡ some c)
    × (mysql.parse_dsn out ≡ some true)
    × (mysql.open_database out ≡ some [])
    × (mysql.ping [] ≡ true)
    × (connect mysql out ≡ inr [])
connect_lem_example = connect_lem mysql (codes "db") [] mysql-IsFaithful connect_test

abbrev getenv : String → Text
getenv name = if name == "DATABASE_URL" then codes "db" else []

abbrev machine : Machine
machine = record {
  getenv = getenv;
  mysql = mysql;
  files = files;
  disk = disk;
  path = λ name. base;
  file_system = λ p. none;
}

no_rows_lost :
    (stmts : List Text)
    → All (λ t. (v : ℤ) (s : List ℤ) → driver.count v s ≤ driver.count v (driver.exec t s).0) stmts
no_rows_lost [] = tt
no_rows_lost (t ∷ stmts) = (harmless, no_rows_lost stmts)

All-IsSparing : (ms : List Migration) → All (IsSparing driver) ms
All-IsSparing [] = tt
All-IsSparing (m ∷ ms) = (no_rows_lost (split_sql m.up_sql), All-IsSparing ms)

abbrev laid_out : FileSystem
laid_out = (new_storage disk (codes "./data") base (λ p. none)).0

startup_test : startup machine ≡ ready (complete (load getenv)) (pos 2 ∷ pos 1 ∷ []) laid_out
unfolding startup connect normalize_mysql_dsn load get_env get_env_int complete trim_space trim_left
    text_eq load_migrations choose title has_prefix load_root load_from read_all sort collect
    of_entry of_parts scan_int cut_at parse_int is_among read_migration format_nat has_suffix insert
    padded has_up_migration has_dir run_migrations step is_migration_applied times same exec_all
    split_sql keep split statement_of join is_kept new_storage new_server web_mail.Storage.store_at
    web_mail.Storage.path_eq
startup_test = refl

startup-IsReady_example : IsReady machine (complete (load getenv)) (pos 2 ∷ pos 1 ∷ []) laid_out
startup-IsReady_example =
    startup-IsReady machine driver-IsLawful (λ ms e. All-IsSparing ms) (complete (load getenv))
      (pos 2 ∷ pos 1 ∷ []) laid_out startup_test
