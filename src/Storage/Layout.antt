-- ===== src/Storage/Layout.antt =====
-- The directories of a new storage.
use web_mail.Base.{
  ◌≡◌, refl, ap, subst, true, false, some, [], ◌∷◌, Text, codes, arith, is_empty, trim_space,
  Bool-cases, inl, inr,
}
use web_mail.Storage.{
  FilePath, dir, file, FileSystem, Result, Disk, store_at, mkdir_all, in_made, new_storage,
}
use web_mail.Storage.Blobs.{Keeps, path_eq_refl, mkdir_all-Keeps}

module _ (d : Disk) where
  mkdir_all-dir :
      (name : Text) (parent : FilePath) (fs fs' : FileSystem)
      → mkdir_all d (name ∷ parent) fs ≡ (fs', true)
      → fs' (name ∷ parent) ≡ some dir
  unfolding mkdir_all store_at
  mkdir_all-dir name parent fs fs' e = ground (arith, path_eq_refl (name ∷ parent))

  -- A directory stays one.
  mkdir_all-still :
      (p q : FilePath) (fs : FileSystem) → fs q ≡ some dir → (mkdir_all d p fs).0 q ≡ some dir
  unfolding mkdir_all store_at
  mkdir_all-still [] q fs h = h
  mkdir_all-still (name ∷ parent) q fs h = ground (arith, mkdir_all-still parent q fs h)

  -- What a new storage leaves of the disk.
  pub record IsLaidOut (base : FilePath) (before after : FileSystem) : Type 0 where
    pub raw : after (codes "raw" ∷ base) ≡ some dir
    pub attachments : after (codes "attachments" ∷ base) ≡ some dir
    pub kept : Keeps before after

  in_made-IsLaidOut :
      (base : FilePath) (fs fs' : FileSystem) (made : Result)
      → mkdir_all d (codes "raw" ∷ base) fs ≡ made
      → in_made d (codes "attachments" ∷ base) made ≡ (fs', true)
      → IsLaidOut base fs fs'
  unfolding in_made
  in_made-IsLaidOut base fs fs' (fs1, false) first e = absurd (cc e)
  in_made-IsLaidOut base fs fs' (fs1, true) first second =
      let raw_made = mkdir_all-dir (codes "raw") base fs fs1 first in
      let after_first = ap (λ (r : Result). r.0) first in
      let after_second = ap (λ (r : Result). r.0) second in
      record {
        raw =
            subst (λ (f : FileSystem). f (codes "raw" ∷ base) ≡ some dir) after_second
              (mkdir_all-still (codes "attachments" ∷ base) (codes "raw" ∷ base) fs1 raw_made);
        attachments = mkdir_all-dir (codes "attachments") base fs1 fs' second;
        kept = λ q c h.
            subst (λ (f : FileSystem). f q ≡ some (file c)) after_second
              (mkdir_all-Keeps d (codes "attachments" ∷ base) fs1 q c (
                subst (λ (f : FileSystem). f q ≡ some (file c)) after_first
                  (mkdir_all-Keeps d (codes "raw" ∷ base) fs q c h)));
      }

  pub new_storage-IsLaidOut :
      (base_dir : Text) (base : FilePath) (fs fs' : FileSystem)
      → new_storage d base_dir base fs ≡ (fs', true)
      → IsLaidOut base fs fs'
  unfolding new_storage
  new_storage-IsLaidOut base_dir base fs fs' e =
      elim (Bool-cases (is_empty (trim_space base_dir))) [
        | inl blank ↦ absurd (cc (rw (new_storage, blank) at e))
        | inr named ↦
            in_made-IsLaidOut base fs fs' (mkdir_all d (codes "raw" ∷ base) fs) refl
              (rw (new_storage, named) at e)
      ]
