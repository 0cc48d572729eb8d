-- ===== src/Base/Splitting.antt =====
-- strings.Split and strings.Join undo one another.
use web_mail.Base.{
  ℕ, ◌≡◌, refl, ◌∙◌, ap, false, List, [], ◌∷◌, ◌++◌, Text, All, arith, ◌==◌, split_rest, split,
  join, Bool-cases, inl, inr,
}

-- The separator does not occur.
abbrev pub Lacks : ℕ → Text → Type 0
Lacks sep = All (λ c. (c == sep) ≡ false)

module _ (sep : ℕ) where
  split_rest-Lacks :
      (s : Text) → Lacks sep (split_rest sep s).0 × All (Lacks sep) (split_rest sep s).1
  unfolding split_rest
  split_rest-Lacks [] = (tt, tt)
  split_rest-Lacks (c ∷ s) =
      let (first, others) = split_rest-Lacks s in
      elim (Bool-cases (c == sep)) [
        | inl e ↦ rw e (tt, (first, others))
        | inr e ↦ rw e ((e, first), others)
      ]

  pub split-Lacks : (s : Text) → All (Lacks sep) (split sep s)
  unfolding split
  split-Lacks s = split_rest-Lacks s

  -- What holds of every character holds in every part.
  split_rest-All :
      (P : ℕ → Type 0) (s : Text)
      → All P s
      → All P (split_rest sep s).0 × All (All P) (split_rest sep s).1
  unfolding split_rest
  split_rest-All P [] h = (tt, tt)
  split_rest-All P (c ∷ s) h =
      let (first, others) = split_rest-All P s h.1 in
      elim (Bool-cases (c == sep)) [
        | inl e ↦ rw e (tt, (first, others))
        | inr e ↦ rw e ((h.0, first), others)
      ]

  pub split-All : (P : ℕ → Type 0) (s : Text) → All P s → All (All P) (split sep s)
  unfolding split
  split-All P s h = split_rest-All P s h

  split_rest-whole : (s : Text) → Lacks sep s → split_rest sep s ≡ (s, [])
  unfolding split_rest
  split_rest-whole [] h = refl
  split_rest-whole (c ∷ s) h = rw (h.0, split_rest-whole s h.1)

  split_rest-append :
      (s t : Text)
      → Lacks sep s
      → split_rest sep (s ++ sep ∷ t) ≡ (s, (split_rest sep t).0 ∷ (split_rest sep t).1)
  unfolding split_rest
  split_rest-append [] t h = ground arith
  split_rest-append (c ∷ s) t h = rw (h.0, split_rest-append s t h.1)

  split_rest-join :
      (s : Text) (rest : List Text)
      → Lacks sep s
      → All (Lacks sep) rest
      → split_rest sep (join sep (s ∷ rest)) ≡ (s, rest)
  unfolding join
  split_rest-join s [] h hs = split_rest-whole s h
  split_rest-join s (t ∷ rest) h hs =
      split_rest-append s (join sep (t ∷ rest)) h
      ∙ ap (λ (p : Text × List Text). (s, p.0 ∷ p.1)) (split_rest-join t rest hs.0 hs.1)

  pub split-join :
      (s : Text) (rest : List Text)
      → Lacks sep s
      → All (Lacks sep) rest
      → split sep (join sep (s ∷ rest)) ≡ s ∷ rest
  unfolding split
  split-join s rest h hs = rw (split_rest-join s rest h hs)

  join-cons :
      (c : ℕ) (s : Text) (rest : List Text) → join sep ((c ∷ s) ∷ rest) ≡ c ∷ join sep (s ∷ rest)
  unfolding join
  join-cons c s [] = refl
  join-cons c s (t ∷ rest) = refl

  join-split_rest : (s : Text) → join sep ((split_rest sep s).0 ∷ (split_rest sep s).1) ≡ s
  unfolding split_rest join
  join-split_rest [] = refl
  join-split_rest (c ∷ s) = elim (Bool-cases (c == sep)) [
    | inl e ↦ rw e (ground (arith, join-split_rest s))
    | inr e ↦ rw e (join-cons c _ _ ∙ ap (λ r. c ∷ r) (join-split_rest s))
  ]

  pub join-split : (s : Text) → join sep (split sep s) ≡ s
  unfolding split
  join-split s = join-split_rest s
