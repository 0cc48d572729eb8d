-- ===== src/Migrate/Run.antt =====
-- internal/db/migrate.go: RunMigrations and RollbackMigration. The database is a parameter: what
-- each call of the driver makes of its state, and whether it returns an error.
use web_mail.Base.{
  ℕ, Bool, true, false, Option, none, some, List, [], ◌∷◌, Text, ℤ, ltb, ltb_ℤ, if◌then◌else◌,
}
use web_mail.Migrate.Statements.{split_sql}
use web_mail.Migrate.Load.{Migration, sort}

pub record Driver : Type 1 where
  pub State : Type 0
  -- CREATE TABLE IF NOT EXISTS schema_migrations
  pub create_table : State → State × Bool
  -- SELECT COUNT(*): whether it fails, and the count
  pub count_fails : ℤ → State → Bool
  pub count : ℤ → State → ℕ
  pub begin : State → State × Bool
  pub exec : Text → State → State × Bool
  -- INSERT INTO schema_migrations, and DELETE
  pub insert_version : ℤ → Text → State → State × Bool
  pub delete_version : ℤ → State → State × Bool
  pub commit : State → State × Bool
  -- MariaDB commits by itself before and after a CREATE or DROP, so this may leave some changes
  pub rollback : State → State

-- The errors, with the version of the migration.
pub data Failure : Type 0 where
  table : Failure
  check begin apply record_version commit : ℤ → Failure

abbrev pub later_first : Migration → Migration → Bool
later_first a b = ltb_ℤ b.version a.version

module _ (d : Driver) where
  open d use {
    State, create_table, count_fails, count, exec, insert_version, delete_version, rollback,
  }

  -- `none` is an error of the query.
  unfoldable pub is_migration_applied : ℤ → State → Option Bool
  is_migration_applied version s =
      if count_fails version s then none else some (ltb 0 (count version s))

  -- The statements of a script in order, up to the first error.
  unfoldable pub exec_all : List Text → State → State × Bool
  exec_all [] s = (s, true)
  exec_all (stmt ∷ stmts) s =
      let (s', done) = exec stmt s in elim done [ true ↦ exec_all stmts s' | false ↦ (s', false) ]

  abbrev committed : ℤ → State × Bool → State × Option Failure
  committed version (s, true) = (s, none)
  committed version (s, false) = (s, some (commit version))

  abbrev recorded : ℤ → State × Bool → State × Option Failure
  recorded version (s, true) = committed version (d.commit s)
  recorded version (s, false) = (rollback s, some (record_version version))

  -- `log` is the change of schema_migrations.
  abbrev executed : ℤ → (State → State × Bool) → State × Bool → State × Option Failure
  executed version log (s, true) = recorded version (log s)
  executed version log (s, false) = (rollback s, some (apply version))

  abbrev begun : ℤ → Text → (State → State × Bool) → State × Bool → State × Option Failure
  begun version script log (s, true) = executed version log (exec_all (split_sql script) s)
  begun version script log (s, false) = (s, some (begin version))

  -- One migration in its transaction.
  unfoldable pub in_transaction : ℤ → Text → (State → State × Bool) → State → State × Option Failure
  in_transaction version script log s = begun version script log (d.begin s)

  unfoldable pub apply_one : Migration → State → State × Option Failure
  unfolding in_transaction
  apply_one m s = in_transaction m.version m.up_sql (insert_version m.version m.name) s

  -- The body of the loop, by what the check finds.
  unfoldable pub step : Migration → Option Bool → State → State × Option Failure
  unfolding apply_one
  step m none s = (s, some (check m.version))
  step m (some true) s = (s, none)
  step m (some false) s = apply_one m s

  unfoldable pub run_from : List Migration → State → State × Option Failure
  run_from [] s = (s, none)
  run_from (m ∷ ms) s =
      let (s', failed) = step m (is_migration_applied m.version s) s in
      elim failed [ none ↦ run_from ms s' | some e ↦ (s', some e) ]

  abbrev with_table : (State → State × Option Failure) → State × Bool → State × Option Failure
  with_table loop (s, true) = loop s
  with_table loop (s, false) = (s, some table)

  unfoldable pub run_migrations : List Migration → State → State × Option Failure
  unfolding run_from
  run_migrations ms s = with_table (run_from ms) (create_table s)

  unfoldable pub undo_one : Migration → State → State × Option Failure
  unfolding in_transaction
  undo_one m s = in_transaction m.version m.down_sql (delete_version m.version) s

  -- The loop ends with the first migration that is applied.
  unfoldable pub undo_from : List Migration → State → State × Option Failure
  undo_from [] s = (s, none)
  undo_from (m ∷ ms) s = elim (is_migration_applied m.version s) [
    | none ↦ (s, some (check m.version))
    | some false ↦ undo_from ms s
    | some true ↦ undo_one m s
  ]

  unfoldable pub rollback_migration : List Migration → State → State × Option Failure
  rollback_migration ms s = with_table (undo_from (sort later_first ms)) (create_table s)
