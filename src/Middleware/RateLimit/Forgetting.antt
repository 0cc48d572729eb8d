-- ===== src/Middleware/RateLimit/Forgetting.antt =====
-- The map of clients with its cleanup, and a limiter in which each client has a bucket for good.
use web_mail.Base.{
  ℕ, ◌+◌, ◌-◌, ◌/◌, ◌≤◌, ◌^◌, ◌≡◌, refl, true, sym, ◌∙◌, Option, none, some, List, [], ◌∷◌, Text,
  text_eq, arith, ltb, if◌then◌else◌, Bool-cases, inl, inr,
}
use web_mail.Base.Assoc.{get, get-put, put, Distinct, put-Distinct}
use web_mail.Middleware.RateLimit.{
  Float64, window, Entry, Limiter, Answer, new_rate_limiter, or_full, stale, cleanup, recovered,
  refill, allow,
}
use web_mail.Middleware.RateLimit.Steps.{tokens_at, left_with, allow-state}
use web_mail.Middleware.RateLimit.Sweep.{swept, get-sweep, sweep-Distinct}
use web_mail.Middleware.RateLimit.Bound.{Event, call, tick, InOrder}

-- A duration of a minute gives at least as many tokens as the rate: the products and the quotient
-- are exact for a minute, and the operations of IEEE double arithmetic are monotone. The rate is
-- small enough that the conversion to int does not overflow.
pub record IsGenerous (fl : Float64) : Type 0 where
  pub restores :
      (n e : ℕ)
      → n ≤ 2 ^ 32
      → window ≤ e
      → n ≤ fl.to_int (fl.div (fl.mul (fl.seconds e) (fl.of_int n)) (fl.seconds window))

module _ (fl : Float64) where
  -- What the limiter answers to the requests among the events.
  unfoldable pub answers : List Event → Limiter → List Answer
  answers [] rl = []
  answers (tick t ∷ es) rl = answers es (cleanup t rl)
  answers (call j t ∷ es) rl = (allow fl j t rl).1 ∷ answers es (allow fl j t rl).0

  -- The limiter without a map: a bucket for each client there can be, which nothing deletes.
  unfoldable pub ideal : ℕ → List Event → (Text → Entry) → List Answer
  ideal n [] buckets = []
  ideal n (tick t ∷ es) buckets = ideal n es buckets
  ideal n (call j t ∷ es) buckets =
      let tokens = refill fl n t (buckets j) in
      record {
        allowed = ltb 0 tokens;
        remaining = tokens - 1;
        reset_at = (t + window) / 1000000000;
      }
      ∷ ideal n es (λ i. if text_eq j i then left_with fl tokens t else buckets i)

  allow-answer :
      (j : Text) (t : ℕ) (rl : Limiter)
      → (allow fl j t rl).1 ≡ record {
        allowed = ltb 0 (tokens_at fl j t rl);
        remaining = tokens_at fl j t rl - 1;
        reset_at = (t + window) / 1000000000;
      }
  unfolding allow
  allow-answer j t rl = ground arith

  -- What the map holds for a client shows the client's bucket, from the clock `c` on.
  abbrev Shows : ℕ → ℕ → Option Entry → Entry → Type 0
  Shows n c none b = (t : ℕ) → c ≤ t → refill fl n t b ≡ n
  Shows n c (some e) b = (b ≡ e) × (e.tokens ≤ n)

  pub refill_new : (n c t : ℕ) → refill fl n t (record { tokens = n; last_update = c }) ≡ n
  unfolding refill
  refill_new n c t = ground arith

  pub refill-le_rate : (n t : ℕ) (e : Entry) → e.tokens ≤ n → refill fl n t e ≤ n
  unfolding refill
  refill-le_rate n t e h = ground arith

  -- A deleted entry would have been refilled.
  refill-stale :
      (n c t : ℕ) (e : Entry)
      → IsGenerous fl
      → n ≤ 2 ^ 32
      → stale c e ≡ true
      → c ≤ t
      → e.tokens ≤ n
      → refill fl n t e ≡ n
  unfolding refill recovered stale
  refill-stale n c t e h small gone later bounded =
      ground (arith, h.restores n (t - e.last_update) small)

  Shows-later : (n c t : ℕ) (o : Option Entry) (b : Entry) → c ≤ t → Shows n c o b → Shows n t o b
  Shows-later n c t none b later shows = λ t' h. shows t' (omega arith)
  Shows-later n c t (some e) b later shows = shows

  Shows-swept :
      (n c t : ℕ) (o : Option Entry) (b : Entry)
      → IsGenerous fl
      → n ≤ 2 ^ 32
      → c ≤ t
      → Shows n c o b
      → Shows n t (swept t o) b
  Shows-swept n c t none b h small later shows = Shows-later n c t none b later shows
  Shows-swept n c t (some e) b h small later (same, bounded) = elim (Bool-cases (stale t e)) [
    | inl gone ↦ rw gone (λ t' after. rw same (refill-stale n t t' e h small gone after bounded))
    | inr kept ↦ rw kept (same, bounded)
  ]

  -- The tokens that a request finds are those of the bucket.
  Shows-refill :
      (n c t : ℕ) (o : Option Entry) (b : Entry)
      → c ≤ t
      → Shows n c o b
      → (refill fl n t (or_full n t o) ≡ refill fl n t b) × (refill fl n t b ≤ n)
  Shows-refill n c t none b later shows =
      (refill_new n t t ∙ sym (shows t later), rw (shows t later) (omega arith))
  Shows-refill n c t (some e) b later (same, bounded) =
      (rw same refl, rw same (refill-le_rate n t e bounded))

  record Simulates (n c : ℕ) (rl : Limiter) (buckets : Text → Entry) : Type 0 where
    rate : rl.requests_per_minute ≡ n
    distinct : Distinct rl.entries
    shows : (ip : Text) → Shows n c (get ip rl.entries) (buckets ip)

  module _ (generous : IsGenerous fl) (n : ℕ) (small : n ≤ 2 ^ 32) where
    cleanup-Simulates :
        (c t : ℕ) (rl : Limiter) (buckets : Text → Entry)
        → c ≤ t
        → Simulates n c rl buckets
        → Simulates n t (cleanup t rl) buckets
    unfolding cleanup
    cleanup-Simulates c t rl buckets later s = record {
      rate = s.rate;
      distinct = sweep-Distinct t rl.entries s.distinct;
      shows = λ ip.
          rw (get-sweep t ip rl.entries s.distinct)
            (Shows-swept n c t (get ip rl.entries) (buckets ip) generous small later (s.shows ip));
    }

    Shows-call :
        (c t : ℕ) (j ip : Text) (rl : Limiter) (buckets : Text → Entry) (tokens : ℕ)
        → c ≤ t
        → tokens ≤ n
        → Simulates n c rl buckets
        → Shows n t
            (get ip (put j (left_with fl tokens t) rl.entries))
            (if text_eq j ip then left_with fl tokens t else buckets ip)
    Shows-call c t j ip rl buckets tokens later bounded s = elim (Bool-cases (text_eq j ip)) [
      | inl own ↦ rw (get-put, own) (refl, omega arith)
      | inr other ↦
          rw (get-put, other)
            (Shows-later n c t (get ip rl.entries) (buckets ip) later (s.shows ip))
    ]

    call-Simulates :
        (c t : ℕ) (j : Text) (rl : Limiter) (buckets : Text → Entry)
        → c ≤ t
        → Simulates n c rl buckets
        → (tokens_at fl j t rl ≡ refill fl n t (buckets j))
          × Simulates n t
              (allow fl j t rl).0
              (λ i. if text_eq j i then left_with fl (refill fl n t (buckets j)) t else buckets i)
    call-Simulates c t j rl buckets later s =
        let (same, bounded) = Shows-refill n c t (get j rl.entries) (buckets j) later (s.shows j) in
        let found : tokens_at fl j t rl ≡ refill fl n t (buckets j) = rw s.rate same in
        (
          found,
          rw (allow-state fl j t rl, found)
              (record {
                rate = s.rate;
                distinct = put-Distinct j _ rl.entries s.distinct;
                shows = λ ip. Shows-call c t j ip rl buckets _ later bounded s;
              }),
        )

    answers-ideal :
        (c last : ℕ) (es : List Event) (rl : Limiter) (buckets : Text → Entry)
        → InOrder c es last
        → Simulates n c rl buckets
        → answers es rl ≡ ideal n es buckets
    unfolding answers ideal
    answers-ideal c last [] rl buckets ordered s = refl
    answers-ideal c last (tick t ∷ es) rl buckets (later, ordered) s =
        answers-ideal t last es (cleanup t rl) buckets ordered
          (cleanup-Simulates c t rl buckets later s)
    answers-ideal c last (call j t ∷ es) rl buckets (later, ordered) s =
        let (found, s') = call-Simulates c t j rl buckets later s in
        rw (answers-ideal t last es (allow fl j t rl).0 _ ordered s', allow-answer j t rl, found)
          refl

-- Whenever cleanup runs between requests whose instants do not decrease, the limiter answers each
-- request as if every client had had a full bucket from the start and none was ever deleted: what
-- is allowed, the tokens that remain and the reset time are the same. It holds for
-- rates up to 2^32, if a minute restores at least the rate's tokens in float64.
pub forgetting_lem :
    (fl : Float64) (n c last : ℕ) (es : List Event)
    → IsGenerous fl
    → n ≤ 2 ^ 32
    → InOrder c es last
    → answers fl es (new_rate_limiter n)
      ≡ ideal fl n es (λ ip. record { tokens = n; last_update = c })
unfolding get
forgetting_lem fl n c last es generous small ordered =
    answers-ideal fl generous n small c last es (new_rate_limiter n) _ ordered
      (record { rate = refl; distinct = tt; shows = λ ip t later. refill_new fl n c t })
