-- ===== src/Migrate/Load.antt =====
-- internal/db/migrate.go: LoadMigrations. A directory is what fs.ReadDir and fs.ReadFile give;
-- `none` is an error.
use web_mail.Base.{
  ℕ, zero, suc, ◌-◌, Bool, false, not, ◌&&◌, ◌||◌, Option, none, some, List, [], ◌∷◌, ◌++◌, Text,
  codes, text_eq, is_space, is_among, has_suffix, cut_at, length, take, ltb_ℤ, leb, ◌==◌, ℤ, pos,
  negsuc, if◌then◌else◌,
}
use web_mail.Strconv.{parse_int, format_nat}

pub record DirEntry : Type 0 where
  pub name : Text
  pub is_dir : Bool

pub record Directory : Type 0 where
  pub entries : Option (List DirEntry)
  pub file : Text → Option Text

-- The file system with its directory `migrations`, as fs.Sub gives it.
pub record Files : Type 0 where
  pub root : Directory
  pub migrations : Option Directory

pub record Migration : Type 0 where
  pub version : ℤ
  pub name : Text
  pub up_sql : Text
  pub down_sql : Text

abbrev up_suffix : Text
up_suffix = codes ".up.sql"

unfoldable pub has_up_migration : List DirEntry → Bool
unfolding has_suffix
has_up_migration [] = false
has_up_migration (e ∷ es) = not e.is_dir && has_suffix e.name up_suffix || has_up_migration es

unfoldable pub has_dir : List DirEntry → Text → Bool
has_dir [] name = false
has_dir (e ∷ es) name = e.is_dir && text_eq e.name name || has_dir es name

-- fmt.Sscanf with "%d": spaces, a sign and the digits in front; what follows is left. A line break
-- among the spaces is an error.
skip_spaces : Text → Option Text
skip_spaces [] = some []
skip_spaces (c ∷ s) =
    let rest = skip_spaces s in if c == 10 then none else if is_space c then rest else some (c ∷ s)

leading_digits : Text → Text
leading_digits [] = []
leading_digits (c ∷ s) =
    let rest = leading_digits s in if leb b'0' c && leb c b'9' then c ∷ rest else []

scan_number : Option Text → Option ℤ
unfolding leading_digits
scan_number none = none
scan_number (some []) = none
scan_number (some (c ∷ s)) =
    if c == b'+' || c == b'-'
    then parse_int (c ∷ leading_digits s)
    else parse_int (leading_digits (c ∷ s))

unfoldable pub scan_int : Text → Option ℤ
unfolding skip_spaces scan_number is_space
scan_int s = scan_number (skip_spaces s)

-- One round of the loop over the entries, on a name without its suffix.
unfoldable pub of_parts : List Text → Option ℤ → Option Text → Option (ℤ × Text)
of_parts seen (some version) (some name) = if is_among name seen then none else some (version, name)
of_parts seen _ _ = none

unfoldable pub of_entry : List Text → DirEntry → Option (ℤ × Text)
of_entry seen e =
    let name = take (length e.name - length up_suffix) e.name in
    let (number, rest) = cut_at b'_' name in
    if e.is_dir || not (has_suffix e.name up_suffix)
    then none
    else of_parts seen (scan_int number) rest

-- The loop; `seen` holds the names that were taken.
unfoldable pub collect : List Text → List DirEntry → List (ℤ × Text)
collect seen [] = []
collect seen (e ∷ es) = elim (of_entry seen e) [
  | none ↦ collect seen es
  | some (version, name) ↦ (version, name) ∷ collect (name ∷ seen) es
]

-- sort.Slice with the order `less`; it inserts one by one up to twelve items, and leaves the order
-- of items of one rank open above that.
module _ {A : Type 0} (less : A → A → Bool) where
  unfoldable pub insert : A → List A → List A
  insert x [] = x ∷ []
  insert x (y ∷ ys) = let rest = insert x ys in if less y x then y ∷ rest else x ∷ (y ∷ ys)

  unfoldable pub sort : List A → List A
  unfolding insert
  sort [] = []
  sort (x ∷ xs) = insert x (sort xs)

-- "%03d"
zeros : ℕ → Text → Text
zeros zero s = s
zeros (suc n) s = b'0' ∷ zeros n s

unfoldable pub padded : ℤ → Text
unfolding zeros
padded (pos n) = zeros (3 - length (format_nat n)) (format_nat n)
padded (negsuc n) = b'-' ∷ zeros (2 - length (format_nat (suc n))) (format_nat (suc n))

-- Migration.String
unfoldable pub title : ℤ → Text → Text
unfolding padded
title version name = padded version ++ b'_' ∷ name

unfoldable pub read_migration : Directory → ℤ × Text → Option Migration
read_migration d (version, name) = elim (d.file (title version name ++ codes ".up.sql")) [
  | none ↦ none
  | some up ↦ elim (d.file (title version name ++ codes ".down.sql")) [
    | none ↦ none
    | some down ↦ some (record { version = version; name = name; up_sql = up; down_sql = down })
  ]
]

unfoldable pub read_all : Directory → List (ℤ × Text) → Option (List Migration)
read_all d [] = some []
read_all d (v ∷ vs) = elim (read_migration d v) [
  | none ↦ none
  | some m ↦ elim (read_all d vs) [ none ↦ none | some ms ↦ some (m ∷ ms) ]
]

abbrev pub by_version : ℤ × Text → ℤ × Text → Bool
by_version a b = ltb_ℤ a.0 b.0

unfoldable pub load_from : Directory → Option (List DirEntry) → Option (List Migration)
load_from d none = none
load_from d (some entries) = read_all d (sort by_version (collect [] entries))

-- The directory that is read: `migrations` below the root, if the root has no migration itself.
unfoldable pub choose : Files → List DirEntry → Option Directory → Directory
unfolding has_up_migration has_dir
choose files entries none = files.root
choose files entries (some below) =
    if not (has_up_migration entries) && has_dir entries (codes "migrations")
    then below
    else files.root

unfoldable pub load_root : Files → Option (List DirEntry) → Option (List Migration)
load_root files none = none
load_root files (some entries) =
    let d = choose files entries files.migrations in load_from d d.entries

unfoldable pub load_migrations : Files → Option (List Migration)
load_migrations files = load_root files files.root.entries
