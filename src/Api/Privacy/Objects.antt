-- ===== src/Api/Privacy/Objects.antt =====
-- The JSON objects that rows of the database are shown as.
use mathlib.Core.Option.{some-injective}
use web_mail.Base.{◌≡◌, refl, subst, some, List, [], ◌∷◌, String, Option-cases, inl, inr}
use web_mail.Http.{Value, string}
use web_mail.Http
use web_mail.Api.Sql.{Cell, int, text}
use web_mail.Api.Messages.{value_of, named, all_named}

abbrev pub Fields : Type 0
Fields = List (String × Value)

-- A cell as a JSON value.
abbrev pub IsShownAs : Cell → Value → Type 0
IsShownAs (int n) v = v ≡ Http.int n
IsShownAs (text t) v = v ≡ string t

-- The cells of a row under the given names, in that order.
abbrev pub IsObject : List String → List Cell → Fields → Type 0
IsObject [] [] [] = Unit
IsObject (k ∷ ks) (c ∷ cs) (f ∷ fs) = (f.0 ≡ k) × IsShownAs c f.1 × IsObject ks cs fs
IsObject _ _ _ = ⊥

abbrev pub AreObjects : List String → List (List Cell) → List Fields → Type 0
AreObjects names [] [] = Unit
AreObjects names (r ∷ rs) (o ∷ os) = IsObject names r o × AreObjects names rs os
AreObjects names _ _ = ⊥

value_of-IsShownAs : (c : Cell) → IsShownAs c (value_of c)
unfolding value_of
value_of-IsShownAs (int n) = refl
value_of-IsShownAs (text t) = refl

pub named-IsObject :
    (names : List String) (cells : List Cell) (fields : Fields)
    → named names cells ≡ some fields
    → IsObject names cells fields
unfolding named
named-IsObject [] [] fields e = subst (IsObject [] []) (some-injective _ _ e) tt
named-IsObject [] (c ∷ cs) fields e = absurd (cc e)
named-IsObject (k ∷ ks) [] fields e = absurd (cc e)
named-IsObject (k ∷ ks) (c ∷ cs) fields e = elim (Option-cases (named ks cs)) [
  | inl bad ↦ absurd (cc (rw bad at e))
  | inr (rest, found) ↦
      subst (IsObject (k ∷ ks) (c ∷ cs)) (some-injective _ _ (rw found at e))
        (refl, value_of-IsShownAs c, named-IsObject ks cs rest found)
]

pub all_named-AreObjects :
    (names : List String) (rows : List (List Cell)) (objects : List Fields)
    → all_named names rows ≡ some objects
    → AreObjects names rows objects
unfolding all_named
all_named-AreObjects names [] objects e = subst (AreObjects names []) (some-injective _ _ e) tt
all_named-AreObjects names (r ∷ rows) objects e = elim (Option-cases (named names r)) [
  | inl bad ↦ absurd (cc (rw (all_named, bad) at e))
  | inr (first, shown) ↦ elim (Option-cases (all_named names rows)) [
    | inl bad ↦ absurd (cc (rw (all_named, shown, bad) at e))
    | inr (rest, found) ↦
        subst (AreObjects names (r ∷ rows)) (some-injective _ _ (rw (all_named, shown, found) at e))
          (named-IsObject names r first shown, all_named-AreObjects names rows rest found)
  ]
]
