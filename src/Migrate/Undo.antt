-- ===== src/Migrate/Undo.antt =====
-- What RollbackMigration takes back.
use mathlib.Core.List.{Memᴰ}
use web_mail.Base.{◌≡◌, ◌⊎◌, ◌<◌, Option, none, List, All, ◌≤ℤ◌}
use web_mail.Migrate.Load.{Migration}
use web_mail.Migrate.Run.{Driver, Failure, undo_one}

-- What RollbackMigration took back, if anything.
pub record IsUndone (d : Driver) (ms : List Migration) (s s' : d.State) (f : Option Failure)
    : Type 0 where
  pub latest : Migration
  pub listed : Memᴰ latest ms
  pub applied : 0 < d.count latest.version s
  -- no applied migration is later
  pub highest : All (λ m. (d.count m.version s ≡ 0) ⊎ (m.version ≤ℤ latest.version)) ms
  pub undone : undo_one d latest s ≡ (s', f)

module _ (d : Driver) where
  -- What the loop finds in a state, on a list with the later migrations first.
  abbrev IsFound : List Migration → d.State → d.State → Option Failure → Type 0
  IsFound ms s s' f =
      (All (λ m. d.count m.version s ≡ 0) ms × (s' ≡ s) × (f ≡ none)) ⊎ IsUndone d ms s s' f
