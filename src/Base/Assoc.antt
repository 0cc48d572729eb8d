-- ===== src/Base/Assoc.antt =====
-- Go's maps with string keys, as association lists; the program never relies on their order.
use mathlib.Core.Path.{◌≡◌}
use mathlib.Core.Option.{Option, none, some}
use mathlib.Core.List.{List, [], ◌∷◌}
use native.Mathlib.Omega.{arith}
use mathlib.Core.Logic.{inl, inr}
use web_mail.Base.Tests.{if◌then◌else◌, Bool-cases}
use web_mail.Base.Strings.{Text, text_eq, text_eq_iff, text_eq_refl}

module _ {ℓ} {V : Type ℓ} where
  -- m[k]
  unfoldable pub get : Text → List (Text × V) → Option V
  get k [] = none
  get k ((j, v) ∷ m) = if text_eq j k then some v else get k m

  -- delete(m, k)
  unfoldable pub remove : Text → List (Text × V) → List (Text × V)
  remove k [] = []
  remove k ((j, v) ∷ m) = let rest = remove k m in if text_eq j k then rest else (j, v) ∷ rest

  -- m[k] = v
  unfoldable pub put : Text → V → List (Text × V) → List (Text × V)
  unfolding remove
  put k v m = (k, v) ∷ remove k m

  pub get-remove :
      (k j : Text) (m : List (Text × V))
      → get j (remove k m) ≡ (if text_eq k j then none else get j m)
  unfolding get remove
  get-remove k j [] = ground arith
  get-remove k j ((i, v) ∷ m) =
      ground (arith, get-remove k j m, text_eq_iff i k, text_eq_iff i j, text_eq_iff k j)

  pub get-put :
      (k j : Text) (v : V) (m : List (Text × V))
      → get j (put k v m) ≡ (if text_eq k j then some v else get j m)
  unfolding put get
  get-put k j v m = ground (arith, get-remove k j m)

  -- No key stands twice, as in a Go map.
  abbrev pub Distinct : List (Text × V) → Type ℓ
  Distinct [] = Unit
  Distinct ((k, v) ∷ m) = (get k m ≡ none) × Distinct m

  pub remove-Distinct : (k : Text) (m : List (Text × V)) → Distinct m → Distinct (remove k m)
  unfolding remove
  remove-Distinct k [] h = tt
  remove-Distinct k ((j, v) ∷ m) h = elim (Bool-cases (text_eq j k)) [
    | inl e ↦ rw e (remove-Distinct k m h.1)
    | inr e ↦ rw e (ground (arith, get-remove k j m, h.0), remove-Distinct k m h.1)
  ]

  pub put-Distinct : (k : Text) (v : V) (m : List (Text × V)) → Distinct m → Distinct (put k v m)
  unfolding put
  put-Distinct k v m h = (ground (arith, get-remove k k m, text_eq_refl k), remove-Distinct k m h)
