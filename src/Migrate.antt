-- ===== src/Migrate.antt =====
-- internal/db/migrate.go: the migrations of the database. Load reads them from a directory,
-- Statements splits a script, Run applies and takes back; the other child modules hold what they
-- guarantee, and Connect is the connection and the functions that the program calls.
pub mod Statements
pub mod Scripts
pub mod Load
pub mod Loading
pub mod Progress
pub mod Undo
pub mod Sorting
pub mod Run
pub mod Connect
pub mod Dsn
