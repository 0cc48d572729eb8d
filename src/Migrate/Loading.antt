-- ===== src/Migrate/Loading.antt =====
-- What LoadMigrations returns.
use mathlib.Core.Option.{some-injective}
use web_mail.Base.{
  ◌≡◌, refl, true, false, Option, none, some, List, [], ◌∷◌, ◌++◌, map, Text, codes, text_eq_iff,
  is_among, are_distinct, All, arith, ℤ, ◌≤ℤ◌, ◌∙◌, Option-cases, inl, inr, sym, ap, take, length,
  ◌-◌, cut_at,
}
use web_mail.Migrate.Load.{
  DirEntry, Directory, Files, Migration, of_parts, of_entry, scan_int, collect, sort, title,
  read_migration, read_all, by_version, choose, load_from, load_root, load_migrations,
}
use web_mail.Migrate.Sorting.{IsOrdered, are_distinct-sort, sort-IsOrdered}

-- Both scripts of a migration are the files of its version and name.
abbrev pub IsRead : Directory → Migration → Type 0
IsRead d m =
    (d.file (title m.version m.name ++ codes ".up.sql") ≡ some m.up_sql)
    × (d.file (title m.version m.name ++ codes ".down.sql") ≡ some m.down_sql)

pub record IsLoaded (d : Directory) (ms : List Migration) : Type 0 where
  -- in ascending order of their versions
  pub ordered : IsOrdered (λ a b. a.version ≤ℤ b.version) ms
  -- no name twice
  pub distinct : are_distinct (map Migration.name ms) ≡ true
  pub read : All (IsRead d) ms

abbrev heading : Migration → ℤ × Text
heading m = (m.version, m.name)

abbrev name_of : ℤ × Text → Text
name_of v = v.1

of_parts-new :
    (seen : List Text) (number : Option ℤ) (rest : Option Text) (v : ℤ × Text)
    → of_parts seen number rest ≡ some v
    → is_among v.1 seen ≡ false
unfolding of_parts
of_parts-new seen (some version) (some name) v e = ground arith
of_parts-new seen _ _ v e = cc

of_entry-new :
    (seen : List Text) (e : DirEntry) (v : ℤ × Text)
    → of_entry seen e ≡ some v
    → is_among v.1 seen ≡ false
unfolding of_entry
of_entry-new seen e v h =
    let (number, rest) = cut_at b'_' (take (length e.name - length (codes ".up.sql")) e.name) in
    ground (arith, of_parts-new seen (scan_int number) rest v)

All-weaken :
    (k : Text) (seen : List Text) (vs : List (ℤ × Text))
    → All (λ v. is_among v.1 (k ∷ seen) ≡ false) vs
    → All (λ v. is_among v.1 seen ≡ false) vs
unfolding is_among
All-weaken k seen [] h = tt
All-weaken k seen (v ∷ vs) h = (ground (arith, h.0), All-weaken k seen vs h.1)

collect-new :
    (seen : List Text) (es : List DirEntry) → All (λ v. is_among v.1 seen ≡ false) (collect seen es)
unfolding collect
collect-new seen [] = tt
collect-new seen (e ∷ es) = elim (Option-cases (of_entry seen e)) [
  | inl skipped ↦ rw (collect, skipped) (collect-new seen es)
  | inr (v, taken) ↦
      rw (collect, taken)
        (of_entry-new seen e v taken, All-weaken v.1 seen _ (collect-new (v.1 ∷ seen) es))
]

not-is_among :
    (k : Text) (seen : List Text) (vs : List (ℤ × Text))
    → All (λ v. is_among v.1 (k ∷ seen) ≡ false) vs
    → is_among k (map name_of vs) ≡ false
unfolding is_among
not-is_among k seen [] h = refl
not-is_among k seen (v ∷ vs) h =
    ground (arith, not-is_among k seen vs h.1, h.0, text_eq_iff k v.1, text_eq_iff v.1 k)

collect-distinct :
    (seen : List Text) (es : List DirEntry) → are_distinct (map name_of (collect seen es)) ≡ true
unfolding collect are_distinct
collect-distinct seen [] = refl
collect-distinct seen (e ∷ es) = elim (Option-cases (of_entry seen e)) [
  | inl skipped ↦ rw (collect, skipped) (collect-distinct seen es)
  | inr (v, taken) ↦
      rw
        (
          collect,
          taken,
          not-is_among v.1 seen (collect (v.1 ∷ seen) es) (collect-new (v.1 ∷ seen) es),
        )
        (collect-distinct (v.1 ∷ seen) es)
]

read_migration-IsRead :
    (d : Directory) (v : ℤ × Text) (m : Migration)
    → read_migration d v ≡ some m
    → (heading m ≡ v) × IsRead d m
unfolding read_migration
read_migration-IsRead d (version, name) m e =
    elim (Option-cases (d.file (title version name ++ codes ".up.sql"))) [
      | inl missing ↦ absurd (cc (rw (read_migration, missing) at e))
      | inr (up, has_up) ↦ elim (Option-cases (d.file (title version name ++ codes ".down.sql"))) [
        | inl missing ↦ absurd (cc (rw (read_migration, has_up, missing) at e))
        | inr (down, has_down) ↦
            let made : Migration = record {
              version = version;
              name = name;
              up_sql = up;
              down_sql = down;
            } in
            let same : some made ≡ some m = rw (read_migration, has_up, has_down) at e in
            rw (← some-injective _ _ same) (refl, (has_up, has_down))
      ]
    ]

read_all-IsRead :
    (d : Directory) (vs : List (ℤ × Text)) (ms : List Migration)
    → read_all d vs ≡ some ms
    → (map heading ms ≡ vs) × All (IsRead d) ms
unfolding read_all
read_all-IsRead d [] ms e = rw (← some-injective _ _ e) (refl, tt)
read_all-IsRead d (v ∷ vs) ms e = elim (Option-cases (read_migration d v)) [
  | inl failed ↦ absurd (cc (rw (read_all, failed) at e))
  | inr (m, read) ↦ elim (Option-cases (read_all d vs)) [
    | inl failed ↦ absurd (cc (rw (read_all, read, failed) at e))
    | inr (rest, more) ↦
        let same : some (m ∷ rest) ≡ some ms = rw (read_all, read, more) at e in
        let (heads, all_read) = read_all-IsRead d vs rest more in
        let (head, one_read) = read_migration-IsRead d v m read in
        rw (← some-injective _ _ same, head, heads) (refl, (one_read, all_read))
  ]
]

IsOrdered-heading :
    (ms : List Migration)
    → IsOrdered (λ a b. a.0 ≤ℤ b.0) (map heading ms)
    → IsOrdered (λ a b. a.version ≤ℤ b.version) ms
IsOrdered-heading [] h = tt
IsOrdered-heading (m ∷ ms) h = (below ms h.0, IsOrdered-heading ms h.1)
  where
    below :
        (rest : List Migration)
        → All (λ (b : ℤ × Text). m.version ≤ℤ b.0) (map heading rest)
        → All (λ b. m.version ≤ℤ b.version) rest
    below [] k = tt
    below (r ∷ rest) k = (k.0, below rest k.1)

map-heading_name : (ms : List Migration) → map name_of (map heading ms) ≡ map Migration.name ms
map-heading_name [] = refl
map-heading_name (m ∷ ms) = ap (λ r. m.name ∷ r) (map-heading_name ms)

load_from-IsLoaded :
    (d : Directory) (es : List DirEntry) (ms : List Migration)
    → load_from d (some es) ≡ some ms
    → IsLoaded d ms
unfolding load_from
load_from-IsLoaded d es ms e =
    let (heads, read) = read_all-IsRead d (sort by_version (collect [] es)) ms e in
    let ordered : IsOrdered (λ a b. a.0 ≤ℤ b.0) (sort by_version (collect [] es)) =
      sort-IsOrdered by_version (λ a b. a.0 ≤ℤ b.0) (λ x y l. ground arith) (λ x y l. ground arith)
        (λ x y z p q. omega arith) (collect [] es) in
    record {
      ordered = IsOrdered-heading ms (rw heads ordered);
      distinct =
          ap are_distinct (sym (map-heading_name ms))
          ∙ ap (λ vs. are_distinct (map name_of vs)) heads
          ∙ are_distinct-sort by_version name_of (collect [] es)
          ∙ collect-distinct [] es;
      read = read;
    }

load_from-ne-none :
    (d : Directory) (o : Option (List DirEntry)) (ms : List Migration)
    → load_from d o ≡ some ms
    → IsLoaded d ms
load_from-ne-none d none ms e = absurd (unfold load_from in cc e)
load_from-ne-none d (some es) ms e = load_from-IsLoaded d es ms e

load_root-IsLoaded :
    (files : Files) (o : Option (List DirEntry)) (ms : List Migration)
    → load_root files o ≡ some ms
    → (es : List DirEntry) × (o ≡ some es) × IsLoaded (choose files es files.migrations) ms
unfolding load_root
load_root-IsLoaded files none ms e = cc
load_root-IsLoaded files (some es) ms e =
    (es, refl, load_from-ne-none (choose files es files.migrations) _ ms e)

-- The migrations that are loaded come from one directory, in ascending order of their versions and
-- with no name twice, and the scripts of each are the two files of its version, in at least three
-- digits, and its name.
pub load_migrations-IsLoaded :
    (files : Files) (ms : List Migration)
    → load_migrations files ≡ some ms
    → (es : List DirEntry) × (files.root.entries ≡ some es)
      × IsLoaded (choose files es files.migrations) ms
unfolding load_migrations
load_migrations-IsLoaded files ms e = load_root-IsLoaded files files.root.entries ms e
