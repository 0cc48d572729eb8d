-- ===== src/Middleware/RateLimit/Steps.antt =====
-- One call of Allow: what a client may spend, and what it leaves.
use web_mail.Base.{ℕ, ◌+◌, ◌-◌, ◌*◌, ◌^◌, ◌≤◌, ◌≡◌, subst, none, Text, arith, ltb}
use web_mail.Base.Assoc.{get, put}
use web_mail.Middleware.RateLimit.{
  Float64, window, Entry, Limiter, or_full, recovered, refill, allow,
}

-- The product `scale` of a minute and 2^50, and a factor of 1 + 2^-50 over 2^50.
abbrev pub scale : ℕ
scale = window * 2 ^ 50

abbrev pub slack : ℕ
slack = 2 ^ 50 + 1

-- IEEE double arithmetic: the five roundings on the way to `recovered` gain less than one part in
-- 2^50 over the exact value.
pub record IsRounded (fl : Float64) : Type 0 where
  pub bounded :
      (n e : ℕ)
      → fl.to_int (fl.div (fl.mul (fl.seconds e) (fl.of_int n)) (fl.seconds window)) * scale
        ≤ e * n * slack

pub split_time : (last d n : ℕ) → d * n * slack + last * n * slack ≡ (last + d) * n * slack
split_time last d n = omega arith

pub time_passed :
    (last now n : ℕ) → last ≤ now → (now - last) * n * slack + last * n * slack ≡ now * n * slack
time_passed last now n h =
    let back : last + (now - last) ≡ now = omega arith in
    subst (λ t. (now - last) * n * slack + last * n * slack ≡ t * n * slack) back
      (split_time last (now - last) n)

module _ (fl : Float64) where
  pub recovered-le :
      (n last now : ℕ)
      → IsRounded fl
      → last ≤ now
      → recovered fl n last now * scale + last * n * slack ≤ now * n * slack
  unfolding recovered
  recovered-le n last now h past =
      ground (arith, h.bounded n (now - last), time_passed last now n past)

  pub refill-le :
      (n now : ℕ) (e : Entry)
      → IsRounded fl
      → e.last_update ≤ now
      → refill fl n now e * scale + e.last_update * n * slack ≤ e.tokens * scale + now * n * slack
  unfolding refill
  refill-le n now e h past = ground (arith, recovered-le n e.last_update now h past)

  pub refill_full : (n now : ℕ) → refill fl n now (or_full n now none) ≤ n
  unfolding refill
  refill_full n now = ground arith

  abbrev pub tokens_at : Text → ℕ → Limiter → ℕ
  tokens_at j t rl =
      refill fl rl.requests_per_minute t (or_full rl.requests_per_minute t (get j rl.entries))

  abbrev pub left_with : ℕ → ℕ → Entry
  left_with tokens t = record { tokens = tokens - 1; last_update = t }

  pub allow-state :
      (j : Text) (t : ℕ) (rl : Limiter)
      → (allow fl j t rl).0
        ≡ record rl { entries = put j (left_with (tokens_at j t rl) t) rl.entries }
  unfolding allow
  allow-state j t rl = ground arith

  pub allow-allowed :
      (j : Text) (t : ℕ) (rl : Limiter) → (allow fl j t rl).1.allowed ≡ ltb 0 (tokens_at j t rl)
  unfolding allow
  allow-allowed j t rl = ground arith
