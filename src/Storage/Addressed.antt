-- ===== src/Storage/Addressed.antt =====
-- The files under raw/ are addressed by the digests of their bytes.
use web_mail.Base.{
  ◌≡◌, ◌≢◌, refl, sym, ap, ◌∙◌, inl, inr, true, false, Option, none, some, ◌∷◌, Text, codes, length,
  not, ◌||◌, arith, Bool-cases,
}
use web_mail.Storage.{
  FilePath, FileSystem, Node, dir, file, Written, whole, part, refused, Disk, Result, path_eq,
  store_at, raw_path, mkdir_all, put_file, write_over, write_file, write_in, save_absent,
  save_raw_mime, validate_key,
}
use web_mail.Storage.Blobs.{path_eq_refl, eq_of-path_eq}
use web_mail.Storage.Digests.{digest_path, raw_path-digest, mkdir_all-Avoids, Avoids-short}

-- Every file of a digest holds bytes with this digest, and no directory stands in its place.
pub record IsAddressed (digest : Text → Text) (base : FilePath) (fs : FileSystem) : Type 0 where
  pub at :
      (h : Text) (n : Node)
      → length h ≡ 64
      → fs (digest_path base h) ≡ some n
      → (c : Text) × (n ≡ file c) × (digest c ≡ h)

module _ (digest : Text → Text) (base : FilePath) where
  pub IsAddressed-same :
      (fs fs' : FileSystem)
      → ((h : Text) → fs' (digest_path base h) ≡ fs (digest_path base h))
      → IsAddressed digest base fs
      → IsAddressed digest base fs'
  IsAddressed-same fs fs' same a = record { at = λ h n e found. a.at h n e (sym (same h) ∙ found) }

  IsAddressed-store :
      (fs : FileSystem) (content : Text)
      → IsAddressed digest base fs
      → IsAddressed digest base (store_at (digest_path base (digest content)) (file content) fs)
  unfolding store_at
  IsAddressed-store fs content a = record {
    at = λ h n e found.
        elim (Bool-cases (path_eq (digest_path base (digest content)) (digest_path base h))) [
          | inr other ↦ a.at h n e (ground arith)
          | inl same ↦ (content, ground arith, ground (arith, eq_of-path_eq _ _ same))
        ];
  }

  -- What a save of bytes under their own digest leaves, by whether it returns no error.
  pub record IsSaved (content : Text) (r : Result) : Type 0 where
    pub addressed : IsAddressed digest base r.0
    pub present :
        r.1 ≡ true
        → (c : Text) × (r.0 (digest_path base (digest content)) ≡ some (file c))
          × (digest c ≡ digest content)

  module _ (d : Disk) (intact : (p : FilePath) (t c : Text) → d.written p t ≢ part c)
      (content : Text) (sized : length (digest content) ≡ 64) where
    put_file-IsSaved :
        (fs : FileSystem) (x : Written)
        → ((c : Text) → x ≢ part c)
        → IsAddressed digest base fs
        → IsSaved content (put_file d (digest_path base (digest content)) content fs x)
    unfolding put_file store_at
    put_file-IsSaved fs whole ok a = record {
      addressed = IsAddressed-store fs content a;
      present =
          λ e. (content, ground (arith, path_eq_refl (digest_path base (digest content))), refl);
    }
    put_file-IsSaved fs (part c) ok a = absurd (ok c refl)
    put_file-IsSaved fs refused ok a = record { addressed = a; present = λ e. cc }

    write_over-IsSaved :
        (fs : FileSystem) (o : Option Node)
        → IsAddressed digest base fs
        → IsSaved content (write_over d (digest_path base (digest content)) content fs o)
    unfolding write_over
    write_over-IsSaved fs none a = put_file-IsSaved fs _ (intact _ content) a
    write_over-IsSaved fs (some dir) a = record { addressed = a; present = λ e. cc }
    write_over-IsSaved fs (some (file c)) a = put_file-IsSaved fs _ (intact _ content) a

    write_in-IsSaved :
        (made : Result)
        → IsAddressed digest base made.0
        → IsSaved content (write_in d (digest_path base (digest content)) content made)
    unfolding write_in write_file
    write_in-IsSaved (fs, false) a = record { addressed = a; present = λ e. cc }
    write_in-IsSaved (fs, true) a = write_over-IsSaved fs _ a

    save_absent-IsSaved :
        (fs : FileSystem) (o : Option Node)
        → fs (digest_path base (digest content)) ≡ o
        → IsAddressed digest base fs
        → IsSaved content (save_absent d (digest_path base (digest content)) content fs o)
    unfolding save_absent
    save_absent-IsSaved fs (some n) found a =
        let (c, same, sound) = a.at (digest content) n sized found in
        record { addressed = a; present = λ e. (c, found ∙ ap some same, sound) }
    save_absent-IsSaved fs none found a = write_in-IsSaved (mkdir_all d (codes "raw" ∷ base) fs) (
        IsAddressed-same fs _
          (λ h.
            mkdir_all-Avoids d (digest_path base h) (codes "raw" ∷ base) fs
              (Avoids-short base h (codes "raw" ∷ base) (omega arith)))
          a)

    -- SaveRawMIME of bytes under their digest keeps the files addressed by their digests, and when it
    -- returns no error there is one of this digest, if the disk stores no part of a write.
    pub save_raw_mime-IsSaved :
        (fs : FileSystem)
        → IsAddressed digest base fs
        → IsSaved content (save_raw_mime d base (digest content) content fs)
    unfolding save_raw_mime
    save_raw_mime-IsSaved fs a =
        elim (Bool-cases
          (not (validate_key (digest content)) || d.stat_fails (raw_path base (digest content)))) [
            | inl failed ↦ rw (save_raw_mime, failed) (record { addressed = a; present = λ e. cc })
            | inr fine ↦
                rw (save_raw_mime, fine, raw_path-digest base (digest content) sized)
                  (save_absent-IsSaved fs _ refl a)
          ]
