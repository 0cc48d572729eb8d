-- ===== src/Middleware/RateLimit/Bound.antt =====
-- How many requests of one client the limiter lets through in a stretch of time.
use web_mail.Base.{
  ℕ, ◌+◌, ◌*◌, ◌≤◌, ◌≡◌, refl, Bool, true, false, ◌&&◌, Option, none, some, List, [], ◌∷◌, Text,
  text_eq, text_eq_iff, arith, ltb, Bool-cases, inl, inr,
}
use web_mail.Base.Assoc.{get, get-put, put, Distinct, put-Distinct}
use web_mail.Middleware.RateLimit.{
  Float64, window, Entry, Limiter, new_rate_limiter, or_full, stale, cleanup, refill, allow,
}
use native.Mathlib.Nat.{zero-add}
use web_mail.Middleware.RateLimit.Steps.{
  scale, slack, IsRounded, refill-le, refill_full, tokens_at, left_with, allow-state, allow-allowed,
}
use web_mail.Middleware.RateLimit.Sweep.{swept, get-sweep, sweep-Distinct}

pub data Event : Type 0 where
  call : Text → ℕ → Event
  tick : ℕ → Event

abbrev pub time : Event → ℕ
time (call ip t) = t
time (tick t) = t

-- The instants of the events do not decrease, from `c` up to `last`.
abbrev pub InOrder : ℕ → List Event → ℕ → Type 0
InOrder c [] last = c ≤ last
InOrder c (e ∷ es) last = (c ≤ time e) × InOrder (time e) es last

abbrev pub one_if : Bool → ℕ
one_if true = 1
one_if false = 0

module _ (fl : Float64) where
  -- The requests of `ip` that are let through.
  unfoldable pub admitted : Text → List Event → Limiter → ℕ
  admitted ip [] rl = 0
  admitted ip (tick t ∷ es) rl = admitted ip es (cleanup t rl)
  admitted ip (call j t ∷ es) rl =
      one_if (text_eq j ip && (allow fl j t rl).1.allowed) + admitted ip es (allow fl j t rl).0

mul_mono : (a b n : ℕ) → a ≤ b → a * n ≤ b * n
mul_mono a b n h = grind arith

-- The bound on the requests `count` that are let through from the clock `c` up to `last`, by what
-- the limiter holds for the client.
abbrev Covers : ℕ → ℕ → ℕ → Option Entry → ℕ → Type 0
Covers n c last none count = count * scale + c * n * slack ≤ n * scale + last * n * slack
Covers n c last (some e) count =
    count * scale + e.last_update * n * slack ≤ e.tokens * scale + last * n * slack

abbrev IsPast : ℕ → Option Entry → Type 0
IsPast c none = Unit
IsPast c (some e) = e.last_update ≤ c

-- A later clock covers less.
Covers-earlier :
    (n c t last : ℕ) (o : Option Entry) (count : ℕ)
    → c ≤ t
    → Covers n t last o count
    → Covers n c last o count
Covers-earlier n c t last none count h k = omega (arith, mul_mono c t n h)
Covers-earlier n c t last (some e) count h k = k

-- An entry that cleanup deletes would have been full.
Covers-swept :
    (n c t last : ℕ) (o : Option Entry) (count : ℕ)
    → c ≤ t
    → Covers n t last (swept t o) count
    → Covers n c last o count
unfolding stale
Covers-swept n c t last none count h k = Covers-earlier n c t last none count h k
Covers-swept n c t last (some e) count h k = ground (arith, mul_mono (e.last_update + window) t n)

IsPast-swept : (c t : ℕ) (o : Option Entry) → c ≤ t → IsPast c o → IsPast t (swept t o)
IsPast-swept c t none h past = tt
IsPast-swept c t (some e) h past = elim (Bool-cases (stale t e)) [
  | inl gone ↦ rw gone tt
  | inr left ↦ rw left (omega arith)
]

IsPast-later : (c t : ℕ) (o : Option Entry) → c ≤ t → IsPast c o → IsPast t o
IsPast-later c t none h past = tt
IsPast-later c t (some e) h past = omega arith

Covers-end : (n c last : ℕ) (o : Option Entry) → c ≤ last → IsPast c o → Covers n c last o 0
Covers-end n c last none h past = omega (arith, mul_mono c last n h)
Covers-end n c last (some e) h past = omega (arith, mul_mono e.last_update last n (omega arith))

module _ (fl : Float64) where
  Covers-call :
      (n c t last : ℕ) (o : Option Entry) (count : ℕ)
      → IsRounded fl
      → c ≤ t
      → IsPast c o
      → Covers n t last (some (left_with fl (refill fl n t (or_full n t o)) t)) count
      → Covers n c last o (one_if (ltb 0 (refill fl n t (or_full n t o))) + count)
  Covers-call n c t last none count h later past k =
      ground (arith, refill_full fl n t, mul_mono c t n later)
  Covers-call n c t last (some e) count h later past k = ground (arith, refill-le fl n t e h)

module _ (fl : Float64) (ip : Text) (h : IsRounded fl) where
  Covers-call_any :
      (c t last : ℕ) (j : Text) (rl : Limiter) (count : ℕ)
      → c ≤ t
      → IsPast c (get ip rl.entries)
      → Covers rl.requests_per_minute t last
          (get ip (put j (left_with fl (tokens_at fl j t rl) t) rl.entries))
          count
      → Covers rl.requests_per_minute c last
          (get ip rl.entries)
          (one_if (text_eq j ip && ltb 0 (tokens_at fl j t rl)) + count)
  Covers-call_any c t last j rl count later past k = elim (Bool-cases (text_eq j ip)) [
    | inl own ↦ rw own (Covers-call_own ((text_eq_iff j ip).0 own) (rw (get-put, own) at k))
    | inr other ↦
        rw (other, zero-add)
          (Covers-earlier rl.requests_per_minute c t last (get ip rl.entries) count later
            (rw (get-put, other) at k))
  ]
    where
      Covers-call_own :
          j ≡ ip
          → Covers rl.requests_per_minute t last (some (left_with fl (tokens_at fl j t rl) t)) count
          → Covers rl.requests_per_minute c last
              (get ip rl.entries)
              (one_if (ltb 0 (tokens_at fl j t rl)) + count)
      Covers-call_own q =
          rw q
            (Covers-call fl rl.requests_per_minute c t last (get ip rl.entries) count h later past)

  IsPast-call :
      (c t : ℕ) (j : Text) (rl : Limiter) (e : Entry)
      → c ≤ t
      → e.last_update ≡ t
      → IsPast c (get ip rl.entries)
      → IsPast t (get ip (put j e rl.entries))
  IsPast-call c t j rl e later at_t past = elim (Bool-cases (text_eq j ip)) [
    | inl own ↦ rw (get-put, own) (omega arith)
    | inr other ↦ rw (get-put, other) (IsPast-later c t (get ip rl.entries) later past)
  ]

  Covers-admitted :
      (c last : ℕ) (es : List Event) (rl : Limiter)
      → Distinct rl.entries
      → IsPast c (get ip rl.entries)
      → InOrder c es last
      → Covers rl.requests_per_minute c last (get ip rl.entries) (admitted fl ip es rl)
  unfolding admitted cleanup
  Covers-admitted c last [] rl distinct past ordered =
      Covers-end rl.requests_per_minute c last (get ip rl.entries) ordered past
  Covers-admitted c last (tick t ∷ es) rl distinct past (later, ordered) =
      Covers-swept rl.requests_per_minute c t last (get ip rl.entries) _ later (
        rw (get-sweep t ip rl.entries distinct) at (
          Covers-admitted t last es (cleanup t rl) (sweep-Distinct t rl.entries distinct)
            (rw (get-sweep t ip rl.entries distinct)
              (IsPast-swept c t (get ip rl.entries) later past))
            ordered))
  Covers-admitted c last (call j t ∷ es) rl distinct past (later, ordered) =
      let e = left_with fl (tokens_at fl j t rl) t in
      rw (allow-allowed fl j t rl, allow-state fl j t rl)
        (Covers-call_any c t last j rl _ later past (
          Covers-admitted t last es (record rl { entries = put j e rl.entries })
            (put-Distinct j e rl.entries distinct) (IsPast-call c t j rl e later refl past)
            ordered))

-- From a new limiter, in any interleaving of requests and cleanups between the instants `c` and
-- `last`, the requests of one client that are let through number at most the rate, and what the
-- rate gives for the elapsed time, up to a part in 2^50 for the rounding.
pub admitted-le :
    (fl : Float64) (ip : Text) (n c last : ℕ) (es : List Event)
    → IsRounded fl
    → InOrder c es last
    → admitted fl ip es (new_rate_limiter n) * scale + c * n * slack ≤ n * scale + last * n * slack
unfolding get
admitted-le fl ip n c last es h ordered =
    Covers-admitted fl ip h c last es (new_rate_limiter n) tt tt ordered
