-- ===== src/Storage/Keys.antt =====
-- Which storage keys validateKey accepts.
use mathlib.Core.List.{reverse, reverse-cons, reverse-reverse}
use web_mail.Base.{
  ℕ, ◌≡◌, refl, ◌≢◌, ◌↔◌, true, false, ◌||◌, [], ◌∷◌, ◌++◌, Text, ◌∙◌, text_eq_iff, is_empty_iff,
  contains, cut_at, arith, none,
}
use web_mail.Storage.{drop_slashes, last_part, base_name, validate_key}

contains-append : (c : ℕ) (s t : Text) → contains c (s ++ t) ≡ (contains c s || contains c t)
unfolding contains
contains-append c [] t = refl
contains-append c (x ∷ s) t = ground (arith, contains-append c s t)

contains-reverse : (c : ℕ) (s : Text) → contains c (reverse s) ≡ contains c s
unfolding contains
contains-reverse c [] = refl
contains-reverse c (x ∷ s) =
    rw (reverse-cons, contains-append) (ground (arith, contains-reverse c s))

cut_at-whole : (c : ℕ) (s : Text) → contains c s ≡ false → cut_at c s ≡ (s, none)
unfolding cut_at contains
cut_at-whole c [] h = refl
cut_at-whole c (x ∷ s) h = ground (arith, cut_at-whole c s)

drop_slashes-id : (s : Text) → contains b'/' s ≡ false → drop_slashes s ≡ s
unfolding drop_slashes contains
drop_slashes-id [] h = refl
drop_slashes-id (c ∷ s) h = ground arith

last_part-id : (s : Text) → contains b'/' s ≡ false → last_part s ≡ s
unfolding last_part
last_part-id s h =
    rw (cut_at-whole b'/' (reverse s) (contains-reverse b'/' s ∙ h)) (reverse-reverse s)

-- A name without a slash is its own base name.
base_name-id : (s : Text) → s ≢ [] → contains b'/' s ≡ false → base_name s ≡ s
unfolding base_name
base_name-id s h no_slash =
    rw (drop_slashes-id (reverse s) (contains-reverse b'/' s ∙ no_slash), reverse-reverse)
      (ground (arith, is_empty_iff s, last_part-id s))

-- A key is accepted exactly if it is not empty and has no slash and no backslash.
pub validate_key_iff :
    (key : Text)
    → (validate_key key ≡ true)
      ↔ ((key ≢ []) × (contains b'/' key ≡ false) × (contains b'\\' key ≡ false))
unfolding validate_key
validate_key_iff key =
    ground (arith, is_empty_iff key, text_eq_iff (base_name key) key, base_name-id key)
