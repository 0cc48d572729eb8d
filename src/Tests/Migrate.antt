-- ===== src/Tests/Migrate.antt =====
-- A database that holds the versions of the migrations, and two migrations for it.
use web_mail.Base.{
  ◌≤◌, has_suffix, is_among, cut_at, keep, ℕ, suc, ◌≡◌, refl, ◌⊎◌, Bool, true, false, not, ◌&&◌,
  Option, none, some, List, [], ◌∷◌, Text, codes, text_eq, ℤ, pos, leb_ℤ, arith, if◌then◌else◌, All,
  join, split, trim_space, trim_left, has_prefix, contains,
}
use web_mail.Strconv.{format_nat, parse_int}
use web_mail.Migrate.Statements.{statement_of, split_sql, is_kept}
use web_mail.Migrate.Scripts.{is_kept-IsLine, IsStatement, split_sql-join}
use web_mail.Migrate.Load.{
  has_dir, has_up_migration, padded, read_migration, scan_int, of_parts, of_entry, collect,
  read_all, load_from, load_root, insert, sort, DirEntry, Directory, Files, Migration, choose,
  load_migrations, title,
}
use web_mail.Migrate.Loading.{IsLoaded, load_migrations-IsLoaded}
use web_mail.Migrate.Run.{exec_all, is_migration_applied, step, Driver, Failure, run_migrations}
use web_mail.Migrate.Progress.{
  IsLawful, IsSparing, IsStoppedAt, run_migrations-IsStoppedAt, run_migrations-twice,
}

unfoldable pub same : ℤ → ℤ → Bool
same a b = leb_ℤ a b && leb_ℤ b a

unfoldable pub times : ℤ → List ℤ → ℕ
unfolding same
times v [] = 0
times v (w ∷ s) = let rest = times v s in if same v w then suc rest else rest

unfoldable pub without : ℤ → List ℤ → List ℤ
unfolding same
without v [] = []
without v (w ∷ s) = let rest = without v s in if same v w then rest else w ∷ rest

-- A statement "BAD" fails.
abbrev pub driver : Driver
driver = record {
  State = List ℤ;
  create_table = λ s. (s, true);
  count_fails = λ v s. false;
  count = times;
  begin = λ s. (s, true);
  exec = λ t s. (s, not (text_eq t (codes "BAD")));
  insert_version = λ v name s. (v ∷ s, true);
  delete_version = λ v s. (without v s, true);
  commit = λ s. (s, true);
  rollback = λ s. s;
}

pub driver-IsLawful : IsLawful driver
unfolding times same
driver-IsLawful = record {
  kept_create = λ v s. omega arith;
  kept_begin = λ v s. omega arith;
  kept_insert = λ v w name s. ground arith;
  inserted = λ v name s e. ground arith;
  kept_commit = λ v s e. omega arith;
}

abbrev sessions : Migration
sessions = record {
  version = pos 1;
  name = codes "sessions";
  up_sql = codes "-- first\nCREATE a;\n CREATE b ;";
  down_sql = codes "DROP b; DROP a";
}

abbrev add_recipients : Migration
add_recipients = record {
  version = pos 2;
  name = codes "recipients";
  up_sql = codes "CREATE c; BAD";
  down_sql = codes "DROP c";
}

pub harmless : (v : ℤ) (s : List ℤ) → times v s ≤ times v s
harmless v s = omega arith

sessions-IsSparing : IsSparing driver sessions
unfolding split_sql is_kept statement_of keep split trim_space join
sessions-IsSparing = (harmless, (harmless, tt))

add_recipients-IsSparing : IsSparing driver add_recipients
unfolding split_sql is_kept statement_of keep split trim_space join
add_recipients-IsSparing = (harmless, (harmless, tt))

split_test :
    split_sql (codes "-- a\n CREATE a ;; CREATE b") ≡ codes "CREATE a" ∷ codes "CREATE b" ∷ []
unfolding split_sql is_kept statement_of keep split trim_space join
split_test = refl

abbrev statements : List Text
statements = codes "CREATE a\nON b" ∷ codes "DROP c" ∷ []

statements-AreStatements : All IsStatement statements
unfolding split is_kept trim_space trim_left has_prefix contains
statements-AreStatements = (
  (
    (λ e. cc),
    ground arith,
    (
      is_kept-IsLine (codes "CREATE a") (refl, refl) refl,
      (is_kept-IsLine (codes "ON b") (refl, refl) refl, tt),
    ),
  ),
  (((λ e. cc), ground arith, (is_kept-IsLine (codes "DROP c") (refl, refl) refl, tt)), tt),
)

split_sql-join_example : split_sql (join b';' statements) ≡ statements
split_sql-join_example = split_sql-join statements statements-AreStatements

abbrev directory : Directory
directory = record {
  entries = some (
      record { name = codes "002_b.up.sql"; is_dir = false }
      ∷ record { name = codes "001_a.down.sql"; is_dir = false }
      ∷ record { name = codes "001_a.up.sql"; is_dir = false }
      ∷ []);
  file = λ path. some path;
}

abbrev pub files : Files
files = record { root = directory; migrations = none }

abbrev two : List Migration
two =
    record {
      version = pos 1;
      name = codes "a";
      up_sql = codes "001_a.up.sql";
      down_sql = codes "001_a.down.sql";
    }
    ∷ record {
      version = pos 2;
      name = codes "b";
      up_sql = codes "002_b.up.sql";
      down_sql = codes "002_b.down.sql";
    }
    ∷ []

load_test : load_migrations files ≡ some two
unfolding load_migrations choose title text_eq has_prefix load_root load_from read_all sort collect
    of_entry of_parts scan_int cut_at parse_int is_among read_migration format_nat has_suffix insert
    padded has_up_migration has_dir
load_test = refl

load_migrations-IsLoaded_example :
    (es : List DirEntry) × (directory.entries ≡ some es) × IsLoaded (choose files es none) two
load_migrations-IsLoaded_example = load_migrations-IsLoaded files two load_test

run_test :
    run_migrations driver (sessions ∷ add_recipients ∷ []) []
    ≡ (pos 1 ∷ [], some (Failure.apply (pos 2)))
unfolding run_migrations step is_migration_applied times exec_all split_sql keep split statement_of
    trim_space join is_kept text_eq
run_test = refl

run_migrations-IsStoppedAt_example :
    (((driver.create_table []).1 ≡ false) × (Failure.apply (pos 2) ≡ Failure.table))
    ⊎ IsStoppedAt driver (sessions ∷ add_recipients ∷ []) (pos 1 ∷ []) (Failure.apply (pos 2))
run_migrations-IsStoppedAt_example =
    run_migrations-IsStoppedAt driver (sessions ∷ add_recipients ∷ []) [] (pos 1 ∷ [])
      (Failure.apply (pos 2)) driver-IsLawful (sessions-IsSparing, (add_recipients-IsSparing, tt))
      run_test

run_one_test : run_migrations driver (sessions ∷ []) [] ≡ (pos 1 ∷ [], none)
unfolding run_migrations step is_migration_applied times exec_all split_sql keep split statement_of
    trim_space join is_kept text_eq
run_one_test = refl

run_migrations-twice_example :
    run_migrations driver (sessions ∷ []) (pos 1 ∷ []) ≡ (pos 1 ∷ [], none)
run_migrations-twice_example =
    run_migrations-twice driver (sessions ∷ []) [] (pos 1 ∷ []) driver-IsLawful
      (sessions-IsSparing, tt) run_one_test refl (refl, tt)

abbrev no_error : Option Failure
no_error = none
