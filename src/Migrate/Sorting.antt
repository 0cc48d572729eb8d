-- ===== src/Migrate/Sorting.antt =====
-- What sort.Slice keeps and orders.
use mathlib.Core.List.{Memᴰ}
use web_mail.Base.{
  ◌≡◌, refl, inl, inr, ap, ◌∙◌, Bool, ◌||◌, List, [], ◌∷◌, map, Text, text_eq, text_eq_iff,
  is_among, are_distinct, All, arith, Bool-cases, true, false,
}
use web_mail.Migrate.Load.{insert, sort}

-- Every item stands in the relation to all those behind it.
abbrev pub IsOrdered : {A : Type 0} → (A → A → Type 0) → List A → Type 0
IsOrdered R [] = Unit
IsOrdered R (x ∷ xs) = All (R x) xs × IsOrdered R xs

module _ {A : Type 0} (less : A → A → Bool) where
  insert-All : (P : A → Type 0) (x : A) (ys : List A) → P x → All P ys → All P (insert less x ys)
  unfolding insert
  insert-All P x [] h hs = (h, tt)
  insert-All P x (y ∷ ys) h hs = elim (Bool-cases (less y x)) [
    | inl e ↦ rw e (hs.0, insert-All P x ys h hs.1)
    | inr e ↦ rw e (h, hs)
  ]

  pub sort-All : (P : A → Type 0) (xs : List A) → All P xs → All P (sort less xs)
  unfolding sort
  sort-All P [] h = tt
  sort-All P (x ∷ xs) h = insert-All P x (sort less xs) h.0 (sort-All P xs h.1)

  All-insert : (P : A → Type 0) (x : A) (ys : List A) → All P (insert less x ys) → P x × All P ys
  unfolding insert
  All-insert P x [] h = h
  All-insert P x (y ∷ ys) h = elim (Bool-cases (less y x)) [
    | inl e ↦
        let (first, rest) = rw (e, insert) at h in
        let (here, others) = All-insert P x ys rest in (here, (first, others))
    | inr e ↦ rw (e, insert) at h
  ]

  pub All-sort : (P : A → Type 0) (xs : List A) → All P (sort less xs) → All P xs
  unfolding sort
  All-sort P [] h = tt
  All-sort P (x ∷ xs) h =
      let (here, others) = All-insert P x (sort less xs) h in (here, All-sort P xs others)

  mem-insert : (m x : A) (ys : List A) → Memᴰ m (insert less x ys) → Memᴰ m (x ∷ ys)
  unfolding insert
  mem-insert m x [] h = h
  mem-insert m x (y ∷ ys) h = elim (Bool-cases (less y x)) [
    | inr e ↦ rw (e, insert) at h
    | inl e ↦ swap (mem-insert m x ys) (rw (e, insert) at h)
  ]
    where
      swap :
          (Memᴰ m (insert less x ys) → Memᴰ m (x ∷ ys))
          → Memᴰ m (y ∷ insert less x ys)
          → Memᴰ m (x ∷ y ∷ ys)
      swap f (Memᴰ.head p) = Memᴰ.tail (Memᴰ.head p)
      swap f (Memᴰ.tail t) = after (f t)
        where
          after : Memᴰ m (x ∷ ys) → Memᴰ m (x ∷ y ∷ ys)
          after (Memᴰ.head p) = Memᴰ.head p
          after (Memᴰ.tail u) = Memᴰ.tail (Memᴰ.tail u)

  pub mem-sort : (m : A) (xs : List A) → Memᴰ m (sort less xs) → Memᴰ m xs
  unfolding sort
  mem-sort m [] h = h
  mem-sort m (x ∷ xs) h = grow (mem-sort m xs) (mem-insert m x (sort less xs) h)
    where
      grow : (Memᴰ m (sort less xs) → Memᴰ m xs) → Memᴰ m (x ∷ sort less xs) → Memᴰ m (x ∷ xs)
      grow f (Memᴰ.head p) = Memᴰ.head p
      grow f (Memᴰ.tail t) = Memᴰ.tail (f t)

  module _ (name : A → Text) where
    is_among-insert :
        (k : Text) (x : A) (ys : List A)
        → is_among k (map name (insert less x ys)) ≡ is_among k (map name (x ∷ ys))
    unfolding insert is_among
    is_among-insert k x [] = refl
    is_among-insert k x (y ∷ ys) = ground (arith, is_among-insert k x ys)

    is_among-sort :
        (k : Text) (xs : List A) → is_among k (map name (sort less xs)) ≡ is_among k (map name xs)
    unfolding sort is_among
    is_among-sort k [] = refl
    is_among-sort k (x ∷ xs) =
        is_among-insert k x (sort less xs) ∙ ap (λ b. text_eq (name x) k || b) (is_among-sort k xs)

    are_distinct-insert :
        (x : A) (ys : List A)
        → are_distinct (map name (insert less x ys)) ≡ are_distinct (map name (x ∷ ys))
    unfolding insert are_distinct
    are_distinct-insert x [] = refl
    are_distinct-insert x (y ∷ ys) = ground (
      arith,
      are_distinct-insert x ys,
      is_among-insert (name y) x ys,
      text_eq_iff (name x) (name y),
      text_eq_iff (name y) (name x),
    )

    pub are_distinct-sort :
        (xs : List A) → are_distinct (map name (sort less xs)) ≡ are_distinct (map name xs)
    unfolding sort are_distinct
    are_distinct-sort [] = refl
    are_distinct-sort (x ∷ xs) =
        are_distinct-insert x (sort less xs)
        ∙ ground (arith, is_among-sort (name x) xs, are_distinct-sort xs)

-- Sorting by an order puts every item before those that it may precede.
module _ {A : Type 0} (less : A → A → Bool) (R : A → A → Type 0)
    (of_less : (x y : A) → less y x ≡ true → R y x)
    (of_not_less : (x y : A) → less y x ≡ false → R x y)
    (trans : (x y z : A) → R x y → R y z → R x z) where
  All-trans : (x y : A) (zs : List A) → R x y → All (R y) zs → All (R x) zs
  All-trans x y [] h hs = tt
  All-trans x y (z ∷ zs) h hs = (trans x y z h hs.0, All-trans x y zs h hs.1)

  insert-IsOrdered : (x : A) (ys : List A) → IsOrdered R ys → IsOrdered R (insert less x ys)
  unfolding insert
  insert-IsOrdered x [] h = (tt, tt)
  insert-IsOrdered x (y ∷ ys) h = elim (Bool-cases (less y x)) [
    | inl e ↦ rw e (insert-All less (R y) x ys (of_less x y e) h.0, insert-IsOrdered x ys h.1)
    | inr e ↦ let before = of_not_less x y e in rw e ((before, All-trans x y ys before h.0), h)
  ]

  pub sort-IsOrdered : (xs : List A) → IsOrdered R (sort less xs)
  unfolding sort
  sort-IsOrdered [] = tt
  sort-IsOrdered (x ∷ xs) = insert-IsOrdered x _ (sort-IsOrdered xs)
