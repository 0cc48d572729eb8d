-- ===== src/Middleware/RateLimit/Sweep.antt =====
-- What cleanup leaves of the map of clients.
use web_mail.Base.{
  ℕ, ◌≡◌, refl, Option, none, some, List, [], ◌∷◌, ◌++◌, Text, text_eq_iff, arith, if◌then◌else◌,
  Bool-cases, inl, inr,
}
use web_mail.Base.Assoc.{get, Distinct}
use web_mail.Middleware.RateLimit.{
  Entry, Limiter, stale, sweep, cleanup, Wake, ticked, stopped, cleanup_loop,
}

-- What cleanup leaves of a client's entry.
abbrev pub swept : ℕ → Option Entry → Option Entry
swept t none = none
swept t (some e) = if stale t e then none else some e

pub get_of_sweep-none :
    (t : ℕ) (k : Text) (m : List (Text × Entry)) → get k m ≡ none → get k (sweep t m) ≡ none
unfolding get sweep
get_of_sweep-none t k [] e = refl
get_of_sweep-none t k ((j, v) ∷ m) e = ground (arith, get_of_sweep-none t k m)

pub get-sweep :
    (t : ℕ) (k : Text) (m : List (Text × Entry))
    → Distinct m
    → get k (sweep t m) ≡ swept t (get k m)
unfolding get sweep
get-sweep t k [] d = refl
get-sweep t k ((j, v) ∷ m) (fresh, d) =
    ground (arith, get-sweep t k m d, get_of_sweep-none t k m, text_eq_iff j k)

pub sweep-Distinct : (t : ℕ) (m : List (Text × Entry)) → Distinct m → Distinct (sweep t m)
unfolding sweep
sweep-Distinct t [] d = tt
sweep-Distinct t ((j, v) ∷ m) (fresh, d) = elim (Bool-cases (stale t v)) [
  | inl e ↦ rw e (sweep-Distinct t m d)
  | inr e ↦ rw e (get_of_sweep-none t j m fresh, sweep-Distinct t m d)
]

-- Nothing is deleted behind a Stop.
cleanup_loop-stopped :
    (wakes more : List Wake) (rl : Limiter)
    → cleanup_loop (wakes ++ stopped ∷ more) rl ≡ cleanup_loop wakes rl
unfolding cleanup_loop
cleanup_loop-stopped [] more rl = refl
cleanup_loop-stopped (ticked now ∷ wakes) more rl = cleanup_loop-stopped wakes more (cleanup now rl)
cleanup_loop-stopped (stopped ∷ wakes) more rl = refl
