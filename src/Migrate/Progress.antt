-- ===== src/Migrate/Progress.antt =====
-- What RunMigrations guarantees.
use mathlib.Core.List.{append-nil, append_assoc}
use web_mail.Base.{
  ◌≡◌, ◌⊎◌, refl, inl, inr, ap, sym, ◌∙◌, ◌≤◌, ◌<◌, Bool, true, false, Option, none, some, List, [],
  ◌∷◌, ◌++◌, Text, All, All-append, arith, ℤ, Bool-cases,
}
use web_mail.Migrate.Load.{Migration}
use web_mail.Migrate.Statements.{split_sql}
use web_mail.Migrate.Run.{
  Driver, Failure, is_migration_applied, exec_all, in_transaction, apply_one, step, run_from,
  run_migrations,
}

-- What the source relies on: the driver's own statements lose no row of the table of versions, and
-- an INSERT that succeeds adds its row.
pub record IsLawful (d : Driver) : Type 0 where
  pub kept_create : (v : ℤ) (s : d.State) → d.count v s ≤ d.count v (d.create_table s).0
  pub kept_begin : (v : ℤ) (s : d.State) → d.count v s ≤ d.count v (d.begin s).0
  pub kept_insert :
      (v w : ℤ) (name : Text) (s : d.State) → d.count v s ≤ d.count v (d.insert_version w name s).0
  pub inserted :
      (v : ℤ) (name : Text) (s : d.State)
      → (d.insert_version v name s).1 ≡ true
      → 0 < d.count v (d.insert_version v name s).0
  pub kept_commit :
      (v : ℤ) (s : d.State) → (d.commit s).1 ≡ true → d.count v s ≤ d.count v (d.commit s).0

-- A script of which no statement takes a row out of the table of versions.
abbrev pub IsSparing : Driver → Migration → Type 0
IsSparing d m =
    All (λ t. (v : ℤ) (s : d.State) → d.count v s ≤ d.count v (d.exec t s).0) (split_sql m.up_sql)

module _ (d : Driver) where
  -- Every migration of a list has a row in a state.
  abbrev pub AreApplied : List Migration → d.State → Type 0
  AreApplied ms s = All (λ m. 0 < d.count m.version s) ms

  module _ (laws : IsLawful d) where
    exec_all-kept :
        (v : ℤ) (stmts : List Text) (s : d.State)
        → All (λ t. (w : ℤ) (r : d.State) → d.count w r ≤ d.count w (d.exec t r).0) stmts
        → d.count v s ≤ d.count v (exec_all d stmts s).0
    unfolding exec_all
    exec_all-kept v [] s h = omega arith
    exec_all-kept v (t ∷ stmts) s h =
        ground (arith, h.0 v s, exec_all-kept v stmts (d.exec t s).0 h.1)

    -- A migration that was applied without an error has a row, and no row is lost.
    apply_one-kept :
        (v : ℤ) (m : Migration) (s s' : d.State)
        → IsSparing d m
        → apply_one d m s ≡ (s', none)
        → (d.count v s ≤ d.count v s') × (0 < d.count m.version s')
    unfolding apply_one in_transaction
    apply_one-kept v m s s' spares e =
        let s1 = (d.begin s).0 in
        let s2 = (exec_all d (split_sql m.up_sql) s1).0 in
        let s3 = (d.insert_version m.version m.name s2).0 in
        ground (
          arith,
          laws.kept_begin v s,
          exec_all-kept v (split_sql m.up_sql) s1 spares,
          laws.kept_insert v m.version m.name s2,
          laws.inserted m.version m.name s2,
          laws.kept_commit v s3,
          laws.kept_commit m.version s3,
        )

    step-kept :
        (v : ℤ) (m : Migration) (o : Option Bool) (s s' : d.State)
        → IsSparing d m
        → is_migration_applied d m.version s ≡ o
        → step d m o s ≡ (s', none)
        → (d.count v s ≤ d.count v s') × (0 < d.count m.version s')
    unfolding step is_migration_applied
    step-kept v m none s s' spares found e = absurd (ground arith)
    step-kept v m (some true) s s' spares found e = ground arith
    step-kept v m (some false) s s' spares found e = apply_one-kept v m s s' spares e

    AreApplied-later :
        (ms : List Migration) (s s' : d.State)
        → ((v : ℤ) → d.count v s ≤ d.count v s')
        → AreApplied ms s
        → AreApplied ms s'
    AreApplied-later [] s s' kept h = tt
    AreApplied-later (m ∷ ms) s s' kept h =
        (omega (arith, kept m.version, h.0), AreApplied-later ms s s' kept h.1)

  -- Where a run of the loop ended: with the error of one migration, behind those that are applied.
  pub record IsStoppedAt (ms : List Migration) (s' : d.State) (e : Failure) : Type 0 where
    pub before : List Migration
    pub failing : Migration
    pub after : List Migration
    pub reached : d.State
    pub place : ms ≡ before ++ failing ∷ after
    pub applied : AreApplied before reached
    pub ended :
        step d failing (is_migration_applied d failing.version reached) reached ≡ (s', some e)

  -- How a run of the loop ended.
  abbrev IsRun : List Migration → d.State → Option Failure → Type 0
  IsRun ms s' none = AreApplied ms s'
  IsRun ms s' (some e) = IsStoppedAt ms s' e

  run_from-next :
      (m : Migration) (ms : List Migration) (s s' : d.State)
      → step d m (is_migration_applied d m.version s) s ≡ (s', none)
      → run_from d (m ∷ ms) s ≡ run_from d ms s'
  unfolding run_from
  run_from-next m ms s s' e =
      rw (run_from, ap (λ (r : d.State × Option Failure). r.1) e)
        (ap (λ (r : d.State × Option Failure). run_from d ms r.0) e)

  run_from-stop :
      (m : Migration) (ms : List Migration) (s s' : d.State) (f : Failure)
      → step d m (is_migration_applied d m.version s) s ≡ (s', some f)
      → run_from d (m ∷ ms) s ≡ (s', some f)
  unfolding run_from
  run_from-stop m ms s s' f e =
      rw (run_from, ap (λ (r : d.State × Option Failure). r.1) e)
        (ap (λ (r : d.State × Option Failure). (r.0, some f)) e)

  module _ (laws : IsLawful d) (whole : List Migration) where
    run_from-IsRun :
        (done ms : List Migration) (s : d.State)
        → whole ≡ done ++ ms
        → All (IsSparing d) ms
        → AreApplied done s
        → IsRun whole (run_from d ms s).0 (run_from d ms s).1
    unfolding run_from
    run_from-IsRun done [] s same spares h =
        let all_done : whole ≡ done = same ∙ append-nil done in rw all_done h
    run_from-IsRun done (m ∷ ms) s same spares h =
        by_step (run_from-IsRun (done ++ m ∷ []) ms)
          (step d m (is_migration_applied d m.version s) s) refl
      where
        by_step :
            ((t : d.State)
              → whole ≡ (done ++ m ∷ []) ++ ms
              → All (IsSparing d) ms
              → AreApplied (done ++ m ∷ []) t
              → IsRun whole (run_from d ms t).0 (run_from d ms t).1)
            → (r : d.State × Option Failure) → step d m (is_migration_applied d m.version s) s ≡ r
            → IsRun whole (run_from d (m ∷ ms) s).0 (run_from d (m ∷ ms) s).1
        by_step more (s', none) e = rw (run_from-next m ms s s' e) (
            more s' (same ∙ sym (append_assoc done (m ∷ []) ms)) spares.1 (
              All-append _ done (m ∷ [])
                (AreApplied-later laws done s s'
                  (λ v. (step-kept laws v m _ s s' spares.0 refl e).0) h)
                ((step-kept laws m.version m _ s s' spares.0 refl e).1, tt)))
        by_step more (s', some f) e = rw (run_from-stop m ms s s' f e) (record {
          before = done;
          failing = m;
          after = ms;
          reached = s;
          place = same;
          applied = h;
          ended = e;
        })

  run_migrations-created :
      (ms : List Migration) (s : d.State)
      → (d.create_table s).1 ≡ true
      → run_migrations d ms s ≡ run_from d ms (d.create_table s).0
  unfolding run_migrations
  run_migrations-created ms s e = rw e

  run_migrations-not_created :
      (ms : List Migration) (s : d.State)
      → (d.create_table s).1 ≡ false
      → (run_migrations d ms s).1 ≡ some Failure.table
  unfolding run_migrations
  run_migrations-not_created ms s e = rw e

-- After a run of migrations that returns no error every one of them is recorded as applied, if no
-- statement of their scripts takes a row out of the table of versions.
pub run_migrations-AreApplied :
    (d : Driver) (ms : List Migration) (s s' : d.State)
    → IsLawful d
    → All (IsSparing d) ms
    → run_migrations d ms s ≡ (s', none)
    → AreApplied d ms s'
run_migrations-AreApplied d ms s s' laws spares e = elim (Bool-cases (d.create_table s).1) [
  | inr failed ↦ absurd (cc (run_migrations-not_created d ms s failed, e))
  | inl made ↦
      let ran = run_from-IsRun d laws ms [] ms (d.create_table s).0 refl spares tt in
      rw (sym (run_migrations-created d ms s made) ∙ e) at ran
]

-- A run of migrations that returns an error could not create the table of versions, or it ended in
-- the step of one migration: if no statement of their scripts takes a row out of that table, all
-- those before it in the list are recorded as applied when it begins, and none behind it has been
-- started.
pub run_migrations-IsStoppedAt :
    (d : Driver) (ms : List Migration) (s s' : d.State) (e : Failure)
    → IsLawful d
    → All (IsSparing d) ms
    → run_migrations d ms s ≡ (s', some e)
    → (((d.create_table s).1 ≡ false) × (e ≡ Failure.table)) ⊎ IsStoppedAt d ms s' e
run_migrations-IsStoppedAt d ms s s' e laws spares failed = elim (Bool-cases (d.create_table s).1) [
  | inr missing ↦ inl (missing, cc (run_migrations-not_created d ms s missing, failed))
  | inl made ↦
      let ran = run_from-IsRun d laws ms [] ms (d.create_table s).0 refl spares tt in
      inr (rw (sym (run_migrations-created d ms s made) ∙ failed) at ran)
]

module _ (d : Driver) where
  step-applied :
      (m : Migration) (s : d.State)
      → 0 < d.count m.version s
      → d.count_fails m.version s ≡ false
      → step d m (is_migration_applied d m.version s) s ≡ (s, none)
  unfolding is_migration_applied step
  step-applied m s h works = ground arith

  run_from-applied :
      (ms : List Migration) (s : d.State)
      → AreApplied d ms s
      → All (λ m. d.count_fails m.version s ≡ false) ms
      → run_from d ms s ≡ (s, none)
  unfolding run_from
  run_from-applied [] s h works = refl
  run_from-applied (m ∷ ms) s h works =
      run_from-next d m ms s s (step-applied m s h.0 works.0) ∙ run_from-applied ms s h.1 works.1

-- If no statement of the scripts takes a row out of the table of versions, a second run of migrations
-- behind one that returned no error applies nothing, if the table can be created and read: it only
-- creates the table if it is not there.
pub run_migrations-twice :
    (d : Driver) (ms : List Migration) (s s' : d.State)
    → IsLawful d
    → All (IsSparing d) ms
    → run_migrations d ms s ≡ (s', none)
    → (d.create_table s').1 ≡ true
    → All (λ m. d.count_fails m.version (d.create_table s').0 ≡ false) ms
    → run_migrations d ms s' ≡ ((d.create_table s').0, none)
run_migrations-twice d ms s s' laws spares e made works =
    run_migrations-created d ms s' made
    ∙ run_from-applied d ms (d.create_table s').0
        (AreApplied-later d laws ms s' _ (λ v. laws.kept_create v s')
          (run_migrations-AreApplied d ms s s' laws spares e))
        works
