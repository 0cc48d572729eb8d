-- ===== src/Storage.antt =====
-- internal/storage/storage.go over an abstract disk. A path is the list of its components, the last
-- one first, as filepath.Join leaves it; the base directory is such a path. The disk decides which
-- system calls fail, and what a failed write leaves behind.
pub mod Keys
pub mod Blobs
pub mod Layout
pub mod Digests
pub mod Addressed
use web_mail.Base.{
  ℕ, Bool, true, false, not, ◌&&◌, ◌||◌, Option, none, some, List, [], ◌∷◌, Text, codes, text_eq,
  is_empty, trim_space, contains, cut_at, ◌==◌, if◌then◌else◌, ℤ, pos, leb_ℤ,
}
use mathlib.Core.List.{reverse, tail}
use web_mail.Strconv.{format_int}

abbrev pub FilePath : Type 0
FilePath = List Text

pub data Node : Type 0 where
  dir : Node
  file : Text → Node

abbrev pub FileSystem : Type 0
FileSystem = FilePath → Option Node

-- What os.WriteFile did: all of it, a part of it before an error, or nothing.
pub data Written : Type 0 where
  whole : Written
  part : Text → Written
  refused : Written

pub record Disk : Type 0 where
  pub stat_fails : FilePath → Bool
  pub mkdir_fails : FilePath → Bool
  pub read_fails : FilePath → Bool
  pub written : FilePath → Text → Written

unfoldable pub path_eq : FilePath → FilePath → Bool
path_eq [] [] = true
path_eq (x ∷ p) (y ∷ q) = text_eq x y && path_eq p q
path_eq _ _ = false

unfoldable pub store_at : FilePath → Node → FileSystem → FileSystem
store_at p n fs q = if path_eq p q then some n else fs q

-- One more component of filepath.Join, with the cleaning of "", "." and "..".
unfoldable pub enter : FilePath → Text → FilePath
enter p name =
    if is_empty name || text_eq name (codes ".")
    then p
    else if text_eq name (codes "..")
    then tail p
    else name ∷ p

drop_slashes : Text → Text
drop_slashes [] = []
drop_slashes (c ∷ s) = if c == b'/' then drop_slashes s else c ∷ s

last_part : Text → Text
last_part s = reverse (cut_at b'/' (reverse s)).0

-- filepath.Base
unfoldable pub base_name : Text → Text
unfolding drop_slashes last_part cut_at
base_name s =
    let stripped = reverse (drop_slashes (reverse s)) in
    if is_empty s then codes "." else if is_empty stripped then codes "/" else last_part stripped

-- Whether validateKey returns nil.
unfoldable pub validate_key : Text → Bool
unfolding base_name contains
validate_key key =
    not (
      is_empty key
      || not (text_eq (base_name key) key)
      || (contains b'/' key || contains b'\\' key))

-- An operation returns the file system with whether its error is nil.
abbrev pub Result : Type 0
Result = FileSystem × Bool

contents : Option Node → Option Text
contents none = none
contents (some dir) = none
contents (some (file c)) = some c

abbrev pub raw_path : FilePath → Text → FilePath
raw_path base key = enter (codes "raw" ∷ base) key

abbrev pub attachment_dir : FilePath → ℤ → FilePath
attachment_dir base id = enter (codes "attachments" ∷ base) (format_int id)

module _ (d : Disk) where
  -- os.MkdirAll
  unfoldable pub mkdir_all : FilePath → FileSystem → Result
  mkdir_all [] fs = (fs, true)
  mkdir_all (name ∷ parent) fs =
      let (fs', made) = mkdir_all parent fs in
      if not made || d.mkdir_fails (name ∷ parent)
      then (fs', false)
      else elim (fs' (name ∷ parent)) [
        | none ↦ (store_at (name ∷ parent) dir fs', true)
        | some (file c) ↦ (fs', false)
        | some dir ↦ (fs', true)
      ]

  unfoldable pub in_made : FilePath → Result → Result
  unfolding mkdir_all
  in_made p (fs, false) = (fs, false)
  in_made p (fs, true) = mkdir_all p fs

  -- NewStorage; `base` is the path of the directory's name.
  unfoldable pub new_storage : Text → FilePath → FileSystem → Result
  unfolding in_made
  new_storage base_dir base fs =
      if is_empty (trim_space base_dir)
      then (fs, false)
      else in_made (codes "attachments" ∷ base) (mkdir_all (codes "raw" ∷ base) fs)

  -- What is at a path after a write.
  put_file : FilePath → Text → FileSystem → Written → Result
  unfolding store_at
  put_file p content fs whole = (store_at p (file content) fs, true)
  put_file p content fs (part c) = (store_at p (file c) fs, false)
  put_file p content fs refused = (fs, false)

  write_over : FilePath → Text → FileSystem → Option Node → Result
  unfolding put_file
  write_over p content fs (some dir) = (fs, false)
  write_over p content fs o = put_file p content fs (d.written p content)

  -- os.WriteFile
  unfoldable pub write_file : FilePath → Text → FileSystem → Result
  unfolding write_over
  write_file p content fs = write_over p content fs (fs p)

  -- os.ReadFile
  unfoldable pub read_file : FilePath → FileSystem → Option Text
  unfolding contents
  read_file p fs = if d.read_fails p then none else contents (fs p)

  write_in : FilePath → Text → Result → Result
  unfolding write_file
  write_in p content (fs, made) = if made then write_file p content fs else (fs, false)

  -- By what os.Stat finds at the path.
  save_absent : FilePath → Text → FileSystem → Option Node → Result
  unfolding mkdir_all write_in
  save_absent p content fs (some n) = (fs, true)
  save_absent p content fs none = write_in p content (mkdir_all (tail p) fs)

  unfoldable pub save_raw_mime : FilePath → Text → Text → FileSystem → Result
  unfolding save_absent enter
  save_raw_mime base hash content fs =
      let p = raw_path base hash in
      if not (validate_key hash) || d.stat_fails p
      then (fs, false)
      else save_absent p content fs (fs p)

  unfoldable pub read_raw_mime : FilePath → Text → FileSystem → Option Text
  unfolding read_file enter
  read_raw_mime base hash fs = if validate_key hash then read_file (raw_path base hash) fs else none

  unfoldable pub save_attachment : FilePath → ℤ → Text → Text → FileSystem → Result
  unfolding mkdir_all write_in enter
  save_attachment base id key content fs =
      let parent = attachment_dir base id in
      if leb_ℤ id (pos 0) || not (validate_key key)
      then (fs, false)
      else write_in (enter parent key) content (mkdir_all parent fs)

  unfoldable pub read_attachment : FilePath → ℤ → Text → FileSystem → Option Text
  unfolding read_file enter
  read_attachment base id key fs =
      if leb_ℤ id (pos 0) || not (validate_key key)
      then none
      else read_file (enter (attachment_dir base id) key) fs
