-- ===== src/Tests/Storage.antt =====
-- Saves and reads on a small disk.
use web_mail.Base.{
  ◌≡◌, refl, ◌≢◌, ◌↔◌, true, false, Option, none, some, [], ◌∷◌, Text, codes, contains, ℤ, pos,
}
use web_mail.Storage.{
  Disk, FileSystem, part, path_eq, validate_key, raw_path, save_raw_mime, read_raw_mime,
}
use web_mail.Storage.Keys.{validate_key_iff}
use web_mail.Storage.Blobs.{read_after, read_raw_mime-save_raw_mime, save_raw_mime-truncated}
use web_mail.Tests.{disk, base}

abbrev key : Text
key = codes "c0ffee"

abbrev mail : Text
mail = codes "Subject: hi"

abbrev empty : FileSystem
empty p = none

abbrev saved : FileSystem
saved = (save_raw_mime disk base key mail empty).0

read_raw_mime-save_raw_mime_example :
    read_raw_mime disk base key saved ≡ read_after mail (empty (raw_path base key))
unfolding save_raw_mime validate_key web_mail.Base.text_eq path_eq
read_raw_mime-save_raw_mime_example =
    read_raw_mime-save_raw_mime disk base key mail empty saved refl refl

abbrev full : Disk
full = record disk { written = λ p content. part (codes "Sub") }

save_raw_mime-truncated_example :
    ((save_raw_mime full base key mail empty).1 ≡ false)
    × (save_raw_mime disk base key mail (save_raw_mime full base key mail empty).0
        ≡ ((save_raw_mime full base key mail empty).0, true))
    × (read_raw_mime disk base key (save_raw_mime full base key mail empty).0 ≡ some (codes "Sub"))
unfolding save_raw_mime validate_key web_mail.Base.text_eq path_eq
save_raw_mime-truncated_example =
    save_raw_mime-truncated full disk base key mail (codes "Sub") empty
      (record { valid = refl; free = refl; made = refl; checked = refl; cut = refl }) refl refl

parent_key_test : (validate_key (codes "..") ≡ true) ↔ (
    (codes ".." ≢ [])
    × (contains b'/' (codes "..") ≡ false)
    × (contains b'\\' (codes "..") ≡ false))
parent_key_test = validate_key_iff (codes "..")
