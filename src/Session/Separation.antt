-- ===== src/Session/Separation.antt =====
-- The addresses that the map of the store holds, apart from those that callers hold.
use web_mail.Base.{
  ℕ, suc, ◌<◌, ◌==◌, ◌≡◌, refl, ap, ◌∙◌, Bool, true, false, none, some, List, [], ◌∷◌, Text,
  text_eq, map, arith, Bool-cases, inl, inr, All,
}
use web_mail.Base.Assoc.{get, remove}
use web_mail.Session.{Session}
use web_mail.Session.Sharing.{Memory, assign, new_session, World}

abbrev pub Pointers : Type 0
Pointers = List (Text × ℕ)

abbrev pub seen : (ℕ → Session) → Pointers → List (Text × Session)
seen cell ps = map (λ (e : Text × ℕ). (e.0, cell e.1)) ps

pub seen-remove :
    (cell : ℕ → Session) (t : Text) (ps : Pointers)
    → seen cell (remove t ps) ≡ remove t (seen cell ps)
unfolding remove
seen-remove cell t [] = refl
seen-remove cell t ((u, p) ∷ ps) = elim (Bool-cases (text_eq u t)) [
  | inl e ↦ rw (remove, e) (seen-remove cell t ps)
  | inr e ↦ rw (remove, e) (ap (λ rest. (u, cell p) ∷ rest) (seen-remove cell t ps))
]

pub get-seen :
    (cell : ℕ → Session) (t : Text) (ps : Pointers)
    → get t (seen cell ps) ≡ elim (get t ps) [ none ↦ none | some p ↦ some (cell p) ]
unfolding get
get-seen cell t [] = refl
get-seen cell t ((u, p) ∷ ps) = elim (Bool-cases (text_eq u t)) [
  | inl e ↦ rw (get, e) refl
  | inr e ↦ rw (get, e) (get-seen cell t ps)
]

-- The map's sessions are as they were.
abbrev pub Agree : (ℕ → Session) → (ℕ → Session) → Pointers → Type 0
Agree cell cell' ps = All (λ (e : Text × ℕ). cell' e.1 ≡ cell e.1) ps

pub seen-Agree :
    (cell cell' : ℕ → Session) (ps : Pointers) → Agree cell cell' ps → seen cell' ps ≡ seen cell ps
seen-Agree cell cell' [] a = refl
seen-Agree cell cell' ((u, p) ∷ ps) (e, a) =
    ap (λ x. (u, x) ∷ seen cell' ps) e
    ∙ ap (λ rest. (u, cell p) ∷ rest) (seen-Agree cell cell' ps a)

-- The map's addresses are in use, and no caller holds one of them.
abbrev pub Apart : ℕ → (ℕ → Bool) → Pointers → Type 0
Apart next held ps = All (λ (e : Text × ℕ). (e.1 < next) × (held e.1 ≡ false)) ps

pub record IsSeparate (w : World) : Type 0 where
  pub apart : Apart w.memory.next w.held w.store.sessions
  pub in_use : (p : ℕ) → w.held p ≡ true → p < w.memory.next

pub Apart-remove :
    (next : ℕ) (held : ℕ → Bool) (t : Text) (ps : Pointers)
    → Apart next held ps
    → Apart next held (remove t ps)
unfolding remove
Apart-remove next held t [] a = tt
Apart-remove next held t ((u, p) ∷ ps) (h, a) = elim (Bool-cases (text_eq u t)) [
  | inl e ↦ rw (remove, e) (Apart-remove next held t ps a)
  | inr e ↦ rw (remove, e) (h, Apart-remove next held t ps a)
]

-- A new address is not one of the map's.
pub Apart-new :
    (next : ℕ) (held held' : ℕ → Bool) (ps : Pointers)
    → ((p : ℕ) → p < next → held p ≡ false → held' p ≡ false)
    → Apart next held ps
    → Apart (suc next) held' ps
Apart-new next held held' [] other a = tt
Apart-new next held held' ((u, p) ∷ ps) other ((below, free), a) =
    ((omega arith, other p below free), Apart-new next held held' ps other a)

-- A change of addresses that callers hold, or that are new, is not seen in the map.
pub Apart-Agree :
    (cell cell' : ℕ → Session) (next : ℕ) (held : ℕ → Bool) (ps : Pointers)
    → ((q : ℕ) → q < next → held q ≡ false → cell' q ≡ cell q)
    → Apart next held ps
    → Agree cell cell' ps
Apart-Agree cell cell' next held [] other a = tt
Apart-Agree cell cell' next held ((u, q) ∷ ps) other ((below, free), a) =
    (other q below free, Apart-Agree cell cell' next held ps other a)

pub new_session-cell : (x : Session) (m : Memory) → (new_session x m).1.cell m.next ≡ x
unfolding new_session assign
new_session-cell x m = ground arith

pub new_session-other :
    (x : Session) (m : Memory) (q : ℕ) → q < m.next → (new_session x m).1.cell q ≡ m.cell q
unfolding new_session assign
new_session-other x m q below = ground arith

pub assign-cell : (p : ℕ) (x : Session) (m : Memory) → (assign p x m).cell p ≡ x
unfolding assign
assign-cell p x m = ground arith

pub assign-other :
    (p q : ℕ) (x : Session) (m : Memory) (held : ℕ → Bool)
    → held p ≡ true
    → held q ≡ false
    → (assign p x m).cell q ≡ m.cell q
unfolding assign
assign-other p q x m held hp hq = elim (Bool-cases (q == p)) [
  | inl e ↦ absurd (cc (ap held (eq_of_test q p e)))
  | inr e ↦ rw e refl
]
  where
    eq_of_test : (a b : ℕ) → (a == b) ≡ true → a ≡ b
    eq_of_test a b e = ground arith
