-- ===== src/Base/Trim.antt =====
-- What strings.TrimSpace and filters leave of a text.
use mathlib.Core.List.{reverse, reverse-cons, reverse-reverse, reverse-append, ◌++◌}
use web_mail.Base.{
  ℕ, ◌≡◌, refl, ◌≢◌, ap, Bool, true, false, List, [], ◌∷◌, Text, All, All-append, arith, keep,
  is_space, trim_left, trim_space, Bool-cases, inl, inr,
}

module _ (P : ℕ → Type 0) where
  pub All-reverse : (s : Text) → All P s → All P (reverse s)
  All-reverse [] h = tt
  All-reverse (c ∷ s) h =
      rw reverse-cons (All-append P (reverse s) (c ∷ []) (All-reverse s h.1) (h.0, tt))

  All-trim_left : (s : Text) → All P s → All P (trim_left s)
  unfolding trim_left
  All-trim_left [] h = tt
  All-trim_left (c ∷ s) h = ground (arith, All-trim_left s h.1)

  pub All-trim_space : (s : Text) → All P s → All P (trim_space s)
  unfolding trim_space
  All-trim_space s h =
      All-reverse (trim_left (reverse (trim_left s)))
        (All-trim_left (reverse (trim_left s)) (All-reverse (trim_left s) (All-trim_left s h)))

module _ {A : Type 0} where
  pub All-keep {κ} :
      (P : A → Type κ) (test : A → Bool) (xs : List A) → All P xs → All P (keep test xs)
  unfolding keep
  All-keep P test [] h = tt
  All-keep P test (x ∷ xs) h = elim (Bool-cases (test x)) [
    | inl e ↦ rw e (h.0, All-keep P test xs h.1)
    | inr e ↦ rw e (All-keep P test xs h.1)
  ]

  -- What a filter keeps passes its test.
  pub All-keep_test : (test : A → Bool) (xs : List A) → All (λ x. test x ≡ true) (keep test xs)
  unfolding keep
  All-keep_test test [] = tt
  All-keep_test test (x ∷ xs) = elim (Bool-cases (test x)) [
    | inl e ↦ rw e (e, All-keep_test test xs)
    | inr e ↦ rw e (All-keep_test test xs)
  ]

  pub keep-id : (test : A → Bool) (xs : List A) → All (λ x. test x ≡ true) xs → keep test xs ≡ xs
  unfolding keep
  keep-id test [] h = refl
  keep-id test (x ∷ xs) h = rw h.0 (ap (λ r. x ∷ r) (keep-id test xs h.1))

-- No space in front.
abbrev pub StartsClean : Text → Type 0
StartsClean [] = Unit
StartsClean (c ∷ s) = is_space c ≡ false

-- No space on either side.
abbrev pub IsTrimmed : Text → Type 0
IsTrimmed s = StartsClean s × StartsClean (reverse s)

trim_left-id : (s : Text) → StartsClean s → trim_left s ≡ s
unfolding trim_left
trim_left-id [] h = refl
trim_left-id (c ∷ s) h = rw h

trim_left-StartsClean : (s : Text) → StartsClean (trim_left s)
unfolding trim_left
trim_left-StartsClean [] = tt
trim_left-StartsClean (c ∷ s) = elim (Bool-cases (is_space c)) [
  | inl e ↦ rw e (trim_left-StartsClean s)
  | inr e ↦ rw e e
]

pub trim_space-id : (s : Text) → IsTrimmed s → trim_space s ≡ s
unfolding trim_space
trim_space-id s h = rw (trim_left-id s h.0) (rw (trim_left-id (reverse s) h.1) (reverse-reverse s))

-- A last character that is no space stays.
trim_left-last :
    (xs : Text) (c : ℕ)
    → is_space c ≡ false
    → (ys : Text) × (trim_left (xs ++ c ∷ []) ≡ ys ++ c ∷ [])
unfolding trim_left
trim_left-last [] c h = ([], rw h)
trim_left-last (x ∷ xs) c h = elim (Bool-cases (is_space x)) [
  | inl e ↦ let (ys, same) = trim_left-last xs c h in (ys, rw e same)
  | inr e ↦ (x ∷ xs, rw e)
]

StartsClean-trim_right : (s : Text) → StartsClean s → StartsClean (reverse (trim_left (reverse s)))
unfolding trim_left
StartsClean-trim_right [] h = tt
StartsClean-trim_right (c ∷ s) h =
    let (ys, same) = trim_left-last (reverse s) c h in rw (reverse-cons, same, reverse-append) h

pub trim_space-IsTrimmed : (s : Text) → IsTrimmed (trim_space s)
unfolding trim_space
trim_space-IsTrimmed s = (
  StartsClean-trim_right (trim_left s) (trim_left-StartsClean s),
  rw reverse-reverse (trim_left-StartsClean (reverse (trim_left s))),
)

pub StartsClean-append : (s t : Text) → s ≢ [] → StartsClean s → StartsClean (s ++ t)
StartsClean-append [] t h e = absurd (h refl)
StartsClean-append (c ∷ s) t h e = e
