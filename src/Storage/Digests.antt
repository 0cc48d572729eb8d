-- ===== src/Storage/Digests.antt =====
-- The paths of the files under raw/ when keys are digests, which are longer than "." and "..":
-- attachments are stored elsewhere.
use mathlib.Core.List.{tail}
use web_mail.Base.{
  ◌+◌, ◌<◌, ◌≡◌, ◌≢◌, refl, ◌⊎◌, inl, inr, false, [], ◌∷◌, Text, codes, text_eq, length, ℤ, arith,
  Bool-cases,
}
use web_mail.Strconv.{format_int}
use web_mail.Storage.{
  FilePath, FileSystem, Disk, Result, path_eq, store_at, enter, raw_path, attachment_dir, mkdir_all,
  put_file, write_over, write_file, write_in, save_attachment,
}
use web_mail.Storage.Blobs.{length-path_eq}

-- The file of a digest under a base directory.
abbrev pub digest_path : FilePath → Text → FilePath
digest_path base h = h ∷ codes "raw" ∷ base

pub raw_path-digest :
    (base : FilePath) (h : Text) → length h ≡ 64 → raw_path base h ≡ digest_path base h
unfolding enter text_eq
raw_path-digest base [] e = absurd (omega (arith, e))
raw_path-digest base (a ∷ []) e = absurd (omega (arith, e))
raw_path-digest base (a ∷ b ∷ []) e = absurd (omega (arith, e))
raw_path-digest base (a ∷ b ∷ c ∷ h) e = ground arith

enter-cases :
    (p : FilePath) (x : Text) → (enter p x ≡ p) ⊎ (enter p x ≡ tail p) ⊎ (enter p x ≡ x ∷ p)
unfolding enter
enter-cases p x = ground arith

-- No directory on the way to `q`, nor `q` itself, is the path `p`.
abbrev pub Avoids : FilePath → FilePath → Type 0
Avoids p [] = Unit
Avoids p (x ∷ q) = (path_eq (x ∷ q) p ≡ false) × Avoids p q

module _ (d : Disk) where
  pub mkdir_all-Avoids :
      (p q : FilePath) (fs : FileSystem) → Avoids p q → (mkdir_all d q fs).0 p ≡ fs p
  unfolding mkdir_all store_at
  mkdir_all-Avoids p [] fs a = refl
  mkdir_all-Avoids p (x ∷ q) fs a = ground (arith, mkdir_all-Avoids p q fs a.1)

  write_in-other :
      (p q : FilePath) (content : Text) (r : Result)
      → path_eq q p ≡ false
      → (write_in d q content r).0 p ≡ r.0 p
  unfolding write_in write_file write_over put_file store_at
  write_in-other p q content (fs, made) e = ground arith

module _ (base : FilePath) (h : Text) where
  uneven : (q : FilePath) → length q ≢ 2 + length base → path_eq q (digest_path base h) ≡ false
  uneven q other = elim (Bool-cases (path_eq q (digest_path base h))) [
    | inr e ↦ e
    | inl e ↦ absurd (other (omega (arith, length-path_eq q (digest_path base h) e)))
  ]

  beside : (x : Text) → path_eq (x ∷ codes "attachments" ∷ base) (digest_path base h) ≡ false
  unfolding path_eq text_eq
  beside x = ground arith

  pub Avoids-short : (q : FilePath) → length q < 2 + length base → Avoids (digest_path base h) q
  Avoids-short [] s = tt
  Avoids-short (x ∷ q) s = (uneven (x ∷ q) (λ e. omega arith), Avoids-short q (omega arith))

  length-tail : length (tail base) < 1 + length base
  length-tail = by_base base
    where
      by_base : (b : FilePath) → length (tail b) < 1 + length b
      by_base [] = omega arith
      by_base (x ∷ b) = omega arith

  -- The directory of an attachment and its path are not the file of a digest.
  attachment_dir-Avoids : (id : ℤ) → Avoids (digest_path base h) (attachment_dir base id)
  attachment_dir-Avoids id = elim (enter-cases (codes "attachments" ∷ base) (format_int id)) [
    | inl e ↦ rw e (Avoids-short (codes "attachments" ∷ base) (omega arith))
    | inr (inl e) ↦ rw e (Avoids-short base (omega arith))
    | inr (inr e) ↦ rw e (beside _, Avoids-short (codes "attachments" ∷ base) (omega arith))
  ]

  attachment-aside :
      (id : ℤ) (key : Text)
      → path_eq (enter (attachment_dir base id) key) (digest_path base h) ≡ false
  attachment-aside id key = elim (enter-cases (codes "attachments" ∷ base) (format_int id)) [
    | inl e ↦ rw e (elim (enter-cases (codes "attachments" ∷ base) key) [
      | inl e' ↦ rw e' (uneven (codes "attachments" ∷ base) (λ n. omega arith))
      | inr (inl e') ↦ rw e' (uneven base (λ n. omega arith))
      | inr (inr e') ↦ rw e' (beside key)
    ])
    | inr (inl e) ↦ rw e (elim (enter-cases base key) [
      | inl e' ↦ rw e' (uneven base (λ n. omega arith))
      | inr (inl e') ↦ rw e' (uneven (tail base) (λ n. omega (arith, length-tail)))
      | inr (inr e') ↦ rw e' (uneven (key ∷ base) (λ n. omega arith))
    ])
    | inr (inr e) ↦ rw e (elim (enter-cases (format_int id ∷ codes "attachments" ∷ base) key) [
      | inl e' ↦ rw e' (beside _)
      | inr (inl e') ↦ rw e' (uneven (codes "attachments" ∷ base) (λ n. omega arith))
      | inr (inr e') ↦
          rw e' (uneven (key ∷ format_int id ∷ codes "attachments" ∷ base) (λ n. omega arith))
    ])
  ]

  -- SaveAttachment leaves every such file as it is.
  pub save_attachment-digest :
      (d : Disk) (id : ℤ) (key content : Text) (fs : FileSystem)
      → (save_attachment d base id key content fs).0 (digest_path base h) ≡ fs (digest_path base h)
  unfolding save_attachment
  save_attachment-digest d id key content fs = ground (
    arith,
    write_in-other d (digest_path base h) (enter (attachment_dir base id) key) content
        (mkdir_all d (attachment_dir base id) fs) (attachment-aside id key),
    mkdir_all-Avoids d (digest_path base h) (attachment_dir base id) fs (attachment_dir-Avoids id),
  )
