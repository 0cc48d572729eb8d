-- ===== src/Base/Strings.antt =====
-- Go strings as lists of code points (of bytes, where the program handles raw bytes), with the
-- functions of the package `strings` that the program calls.
use Prim.Native.Nat.{ℕ, ◌+◌}
use Prim.Native.Char.{code}
use Prim.Native.String.{String}
use mathlib.Core.Path.{◌≡◌, refl, ap, sym, ◌∙◌}
use mathlib.Core.Logic.{◌↔◌}
use mathlib.Core.Bool.{Bool, true, false, not, ◌&&◌, ◌||◌}
use mathlib.Core.List.{List, [], ◌∷◌, ◌++◌, reverse, map}
use mathlib.Core.Option.{Option, none, some}
use native.Mathlib.Omega.{arith}
use web_mail.Base.Tests.{ltb, leb, ◌==◌, if◌then◌else◌}

abbrev pub Text : Type 0
Text = List ℕ

abbrev pub codes : String → Text
codes String.[] = []
codes (String.◌∷◌ c s) = code c ∷ codes s

-- a == b
unfoldable pub text_eq : Text → Text → Bool
text_eq [] [] = true
text_eq (x ∷ xs) (y ∷ ys) = x == y && text_eq xs ys
text_eq _ _ = false

eq_of-text_eq : (a b : Text) → text_eq a b ≡ true → a ≡ b
unfolding text_eq
eq_of-text_eq [] [] h = refl
eq_of-text_eq (x ∷ xs) (y ∷ ys) h = ground (arith, eq_of-text_eq xs ys)
eq_of-text_eq [] (y ∷ ys) h = cc
eq_of-text_eq (x ∷ xs) [] h = cc

pub text_eq_refl : (a : Text) → text_eq a a ≡ true
unfolding text_eq
text_eq_refl [] = refl
text_eq_refl (x ∷ xs) = ground (arith, text_eq_refl xs)

pub text_eq_iff : (a b : Text) → (text_eq a b ≡ true) ↔ (a ≡ b)
text_eq_iff a b = (eq_of-text_eq a b, λ e. ap (text_eq a) (sym e) ∙ text_eq_refl a)

-- a == ""
abbrev pub is_empty : Text → Bool
is_empty [] = true
is_empty (c ∷ s) = false

pub is_empty_iff : (s : Text) → (is_empty s ≡ true) ↔ (s ≡ [])
is_empty_iff [] = (λ e. refl, λ e. refl)
is_empty_iff (c ∷ s) = (λ e. cc, λ e. cc)

-- unicode.IsSpace
unfoldable pub is_space : ℕ → Bool
is_space c =
    leb 9 c && leb c 13
    || c == 32
    || c == 0x85
    || c == 0xa0
    || c == 0x1680
    || leb 0x2000 c && leb c 0x200a
    || c == 0x2028
    || c == 0x2029
    || c == 0x202f
    || c == 0x205f
    || c == 0x3000

unfoldable pub trim_left : Text → Text
trim_left [] = []
trim_left (c ∷ s) = if is_space c then trim_left s else c ∷ s

-- strings.TrimSpace
unfoldable pub trim_space : Text → Text
unfolding trim_left is_space
trim_space s = reverse (trim_left (reverse (trim_left s)))

-- The part before the first separator, with the rest behind it if there is one.
unfoldable pub cut_at : ℕ → Text → Text × Option Text
cut_at sep [] = ([], none)
cut_at sep (c ∷ s) = if c == sep then ([], some s) else (c ∷ (cut_at sep s).0, (cut_at sep s).1)

-- strings.HasPrefix
unfoldable pub has_prefix : Text → Text → Bool
has_prefix s [] = true
has_prefix [] (p ∷ ps) = false
has_prefix (c ∷ s) (p ∷ ps) = c == p && has_prefix s ps

-- Whether a code point occurs.
unfoldable pub contains : ℕ → Text → Bool
contains c [] = false
contains c (x ∷ xs) = x == c || contains c xs

-- Whether a text is among others, as a map from texts to true tells it.
unfoldable pub is_among : Text → List Text → Bool
is_among x [] = false
is_among x (y ∷ ys) = text_eq y x || is_among x ys

unfoldable pub are_distinct : List Text → Bool
unfolding is_among
are_distinct [] = true
are_distinct (x ∷ xs) = not (is_among x xs) && are_distinct xs

-- strings.HasSuffix
unfoldable pub has_suffix : Text → Text → Bool
unfolding has_prefix
has_suffix s suffix = has_prefix (reverse s) (reverse suffix)

-- strings.Split by one character; there is always a first part.
unfoldable pub split_rest : ℕ → Text → Text × List Text
split_rest sep [] = ([], [])
split_rest sep (c ∷ s) =
    let (part, parts) = split_rest sep s in
    if c == sep then ([], part ∷ parts) else (c ∷ part, parts)

unfoldable pub split : ℕ → Text → List Text
unfolding split_rest
split sep s = let (part, parts) = split_rest sep s in part ∷ parts

-- strings.Join with one character
unfoldable pub join : ℕ → List Text → Text
join sep [] = []
join sep (s ∷ []) = s
join sep (s ∷ t ∷ rest) = s ++ sep ∷ join sep (t ∷ rest)

-- strings.ToLower, rune by rune: the ASCII letters as written, all else by Go's Unicode table.
unfoldable pub to_lower : (ℕ → ℕ) → Text → Text
to_lower table =
    map (λ c. if ltb c 128 then (if leb b'A' c && leb c b'Z' then c + 32 else c) else table c)

trimmed : trim_space (codes "  a b ") ≡ codes "a b"
unfolding trim_space
trimmed = refl
