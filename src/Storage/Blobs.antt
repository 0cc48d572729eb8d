-- ===== src/Storage/Blobs.antt =====
-- What is on the disk after a save, and what a read gives back.
use mathlib.Core.List.{tail}
use web_mail.Base.{
  ◌<◌, ◌≡◌, refl, ◌≢◌, true, false, Option, none, some, [], ◌∷◌, Text, text_eq_iff, text_eq_refl,
  arith, length, ℤ, ap, ◌∙◌, ap,
}
use web_mail.Storage.{
  FilePath, FileSystem, Node, dir, file, part, Disk, path_eq, store_at, validate_key, Result,
  mkdir_all, write_in, contents, raw_path, save_absent, save_raw_mime, read_raw_mime,
  attachment_dir, save_attachment, read_attachment, enter,
}

pub path_eq_refl : (p : FilePath) → path_eq p p ≡ true
unfolding path_eq
path_eq_refl [] = refl
path_eq_refl (x ∷ p) = ground (arith, path_eq_refl p, text_eq_refl x)

pub length-path_eq : (p q : FilePath) → path_eq p q ≡ true → length p ≡ length q
unfolding path_eq
length-path_eq [] [] h = refl
length-path_eq (x ∷ p) (y ∷ q) h = ground (arith, length-path_eq p q)
length-path_eq [] (y ∷ q) h = cc
length-path_eq (x ∷ p) [] h = cc

pub eq_of-path_eq : (p q : FilePath) → path_eq p q ≡ true → p ≡ q
unfolding path_eq
eq_of-path_eq [] [] h = refl
eq_of-path_eq (x ∷ p) (y ∷ q) h = ground (arith, eq_of-path_eq p q, text_eq_iff x y)
eq_of-path_eq [] (y ∷ q) h = cc
eq_of-path_eq (x ∷ p) [] h = cc

-- What has the files of another file system, and may have more.
abbrev pub Keeps : FileSystem → FileSystem → Type 0
Keeps fs fs' = (q : FilePath) (c : Text) → fs q ≡ some (file c) → fs' q ≡ some (file c)

-- What reading back gives after a save that returned no error, by what was at the path before.
abbrev pub read_after : Text → Option Node → Option Text
read_after content none = some content
read_after content (some dir) = none
read_after content (some (file c)) = some c

module _ (d : Disk) where
  -- A directory is made only where nothing was.
  pub mkdir_all-Keeps : (p : FilePath) (fs : FileSystem) → Keeps fs (mkdir_all d p fs).0
  unfolding mkdir_all store_at
  mkdir_all-Keeps [] fs q c h = h
  mkdir_all-Keeps (name ∷ parent) fs q c h =
      ground (arith, mkdir_all-Keeps parent fs q c h, eq_of-path_eq (name ∷ parent) q)

  mkdir_all-longer :
      (p q : FilePath) (fs : FileSystem) → length p < length q → (mkdir_all d p fs).0 q ≡ fs q
  unfolding mkdir_all store_at
  mkdir_all-longer [] q fs h = refl
  mkdir_all-longer (name ∷ parent) q fs h =
      ground (arith, mkdir_all-longer parent q fs, length-path_eq (name ∷ parent) q)

  mkdir_all-tail : (p : FilePath) (fs : FileSystem) → (mkdir_all d (tail p) fs).0 p ≡ fs p
  unfolding mkdir_all
  mkdir_all-tail [] fs = refl
  mkdir_all-tail (name ∷ parent) fs = mkdir_all-longer parent (name ∷ parent) fs (omega arith)

  write_in-read :
      (p : FilePath) (content : Text) (made : Result) (fs' : FileSystem)
      → made.0 p ≡ none
      → write_in d p content made ≡ (fs', true)
      → fs' p ≡ some (file content)
  unfolding write_in
  write_in-read p content (fs, made) fs' e h = ground (arith, path_eq_refl p)

  write_in-done :
      (p : FilePath) (content : Text) (made : Result) (fs' : FileSystem)
      → write_in d p content made ≡ (fs', true)
      → fs' p ≡ some (file content)
  unfolding write_in
  write_in-done p content (fs, made) fs' h = ground (arith, path_eq_refl p)

  -- A write changes nothing but its own path.
  write_in-Keeps :
      (p : FilePath) (content : Text) (made : Result)
      → ((c : Text) → made.0 p ≢ some (file c))
      → Keeps made.0 (write_in d p content made).0
  unfolding write_in
  write_in-Keeps p content (fs, made) absent q c h = ground (arith, eq_of-path_eq p q, absent c)

  save_absent-read :
      (p : FilePath) (content : Text) (fs fs' : FileSystem) (before : Option Node)
      → fs p ≡ before
      → save_absent d p content fs before ≡ (fs', true)
      → contents (fs' p) ≡ read_after content before
  unfolding save_absent contents
  save_absent-read p content fs fs' none e h =
      ground
        (arith, write_in-read p content (mkdir_all d (tail p) fs) fs' (mkdir_all-tail p fs ∙ e) h)
  save_absent-read p content fs fs' (some dir) e h = rw (← (ap (λ (r : Result). r.0) h), e)
  save_absent-read p content fs fs' (some (file c)) e h = rw (← (ap (λ (r : Result). r.0) h), e)

  -- When SaveRawMIME returns no error, ReadRawMIME of the same hash gives the bytes that were saved
  -- if nothing was stored under the hash, and else what was stored first.
  pub read_raw_mime-save_raw_mime :
      (base : FilePath) (hash content : Text) (fs fs' : FileSystem)
      → save_raw_mime d base hash content fs ≡ (fs', true)
      → d.read_fails (raw_path base hash) ≡ false
      → read_raw_mime d base hash fs' ≡ read_after content (fs (raw_path base hash))
  unfolding save_raw_mime read_raw_mime
  read_raw_mime-save_raw_mime base hash content fs fs' h ok =
      ground
        (arith, save_absent-read (raw_path base hash) content fs fs' (fs (raw_path base hash)) refl)

  save_absent-Keeps :
      (p : FilePath) (content : Text) (fs : FileSystem) (before : Option Node)
      → fs p ≡ before
      → Keeps fs (save_absent d p content fs before).0
  unfolding save_absent
  save_absent-Keeps p content fs (some n) e q c h = h
  save_absent-Keeps p content fs none e q c h =
      write_in-Keeps p content (mkdir_all d (tail p) fs)
        (λ c' bad. cc (mkdir_all-tail p fs, e, bad)) q c (mkdir_all-Keeps (tail p) fs q c h)

  -- SaveRawMIME never changes or removes a file, whether it returns an error or not.
  pub save_raw_mime-Keeps :
      (base : FilePath) (hash content : Text) (fs : FileSystem)
      → Keeps fs (save_raw_mime d base hash content fs).0
  unfolding save_raw_mime
  save_raw_mime-Keeps base hash content fs q c h = ground (
    arith,
    save_absent-Keeps (raw_path base hash) content fs (fs (raw_path base hash)) refl q c h,
  )

  -- When SaveAttachment returns no error, ReadAttachment gives the bytes that were saved.
  pub read_attachment-save_attachment :
      (base : FilePath) (id : ℤ) (key content : Text) (fs fs' : FileSystem)
      → save_attachment d base id key content fs ≡ (fs', true)
      → d.read_fails (enter (attachment_dir base id) key) ≡ false
      → read_attachment d base id key fs' ≡ some content
  unfolding save_attachment read_attachment
  read_attachment-save_attachment base id key content fs fs' h ok = ground (
    arith,
    write_in-done (enter (attachment_dir base id) key) content
        (mkdir_all d (attachment_dir base id) fs) fs',
  )

-- A disk that stores only a part of the bytes and reports an error, as when it is full.
pub record Truncates (d : Disk) (base : FilePath) (hash content c : Text) (fs : FileSystem)
    : Type 0 where
  pub valid : validate_key hash ≡ true
  pub free : fs (raw_path base hash) ≡ none
  pub made : (mkdir_all d (tail (raw_path base hash)) fs).1 ≡ true
  pub checked : d.stat_fails (raw_path base hash) ≡ false
  pub cut : d.written (raw_path base hash) content ≡ part c

-- After such a write SaveRawMIME returns an error, but every later save of the same message returns
-- no error and stores nothing, so that the truncated bytes are what is read back for good.
pub save_raw_mime-truncated :
    (d later : Disk) (base : FilePath) (hash content c : Text) (fs : FileSystem)
    → Truncates d base hash content c fs
    → later.stat_fails (raw_path base hash) ≡ false
    → later.read_fails (raw_path base hash) ≡ false
    → ((save_raw_mime d base hash content fs).1 ≡ false)
      × (save_raw_mime later base hash content (save_raw_mime d base hash content fs).0
          ≡ ((save_raw_mime d base hash content fs).0, true))
      × (read_raw_mime later base hash (save_raw_mime d base hash content fs).0 ≡ some c)
unfolding save_raw_mime read_raw_mime
save_raw_mime-truncated d later base hash content c fs h stat read =
    let p = raw_path base hash in ground (arith, mkdir_all-tail d p fs, path_eq_refl p)
