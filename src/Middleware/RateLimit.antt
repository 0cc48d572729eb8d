-- ===== src/Middleware/RateLimit.antt =====
-- internal/middleware/ratelimit.go. Instants and durations are nanoseconds; the arithmetic in
-- float64 is a parameter. Here one call of Allow or of cleanup is a step; in
-- Interleaving a call of Allow is two steps, and each key that cleanup looks at is one. Tokens are
-- never negative, so they are natural numbers.
pub mod Steps
pub mod Sweep
pub mod Bound
pub mod Forgetting
pub mod Interleaving
pub mod Laws
use web_mail.Base.{
  ℕ, ◌+◌, ◌-◌, ◌*◌, ◌/◌, ◌^◌, ◌≤◌, ◌<◌, ◌≡◌, String, Bool, true, false, not, Option, none, some,
  List, [], ◌∷◌, Text, codes, is_empty, trim_space, cut_at, ltb, leb, ◌==◌, if◌then◌else◌, ℤ, pos,
  leb_ℤ, pos_part,
}
use web_mail.Base.Assoc.{get, put}
use web_mail.Strconv.{format_nat}
use web_mail.Http.{
  Request, Writer, Middleware, Outcome, answered, pass, plain, header_get, set_header, write_header,
  write,
}

-- The float64 operations of Allow on values that are not negative: a conversion from int,
-- Duration.Seconds, product, quotient, and the conversion to int that rounds down.
pub record Float64 : Type 1 where
  pub Float : Type 0
  pub of_int : ℕ → Float
  pub seconds : ℕ → Float
  pub mul : Float → Float → Float
  pub div : Float → Float → Float
  pub to_int : Float → ℕ

-- time.Minute
abbrev pub window : ℕ
window = 60000000000

pub record Entry : Type 0 where
  pub tokens : ℕ
  pub last_update : ℕ

pub record Limiter : Type 0 where
  pub requests_per_minute : ℕ
  pub entries : List (Text × Entry)

-- newRateLimiter, its state
abbrev pub new_rate_limiter : ℕ → Limiter
new_rate_limiter n = record { requests_per_minute = n; entries = [] }

abbrev pub or_full : ℕ → ℕ → Option Entry → Entry
or_full n now none = record { tokens = n; last_update = now }
or_full n now (some e) = e

pub stale : ℕ → Entry → Bool
stale now e = ltb window (now - e.last_update)

pub sweep : ℕ → List (Text × Entry) → List (Text × Entry)
sweep now [] = []
sweep now ((ip, e) ∷ m) = if stale now e then sweep now m else (ip, e) ∷ sweep now m

unfoldable pub cleanup : ℕ → Limiter → Limiter
unfolding sweep stale
cleanup now rl = record rl { entries = sweep now rl.entries }

-- What the goroutine of the limiter receives, with the clock of the tick; Stop closes its channel.
pub data Wake : Type 0 where
  ticked : ℕ → Wake
  stopped : Wake

unfoldable pub cleanup_loop : List Wake → Limiter → Limiter
unfolding cleanup
cleanup_loop [] rl = rl
cleanup_loop (ticked now ∷ wakes) rl = cleanup_loop wakes (cleanup now rl)
cleanup_loop (stopped ∷ wakes) rl = rl

pub record Answer : Type 0 where
  pub allowed : Bool
  pub remaining : ℕ
  pub reset_at : ℕ

module _ (fl : Float64) where
  open fl use {of_int, seconds, mul, div, to_int}

  -- A clock that went back gives a negative number of tokens, which counts as none.
  unfoldable pub recovered : ℕ → ℕ → ℕ → ℕ
  recovered n last now =
      if ltb now last
      then 0
      else to_int (div (mul (seconds (now - last)) (of_int n)) (seconds window))

  -- The tokens of an entry when a request arrives.
  unfoldable pub refill : ℕ → ℕ → Entry → ℕ
  refill n now e =
      let r = recovered n e.last_update now in
      if ltb 0 r then (if ltb n (e.tokens + r) then n else e.tokens + r) else e.tokens

  abbrev spend : Text → ℕ → ℕ → Limiter → Limiter × Answer
  spend ip now tokens rl =
      let reset_at = (now + window) / 1000000000 in
      if tokens == 0
      then (
        record rl { entries = put ip (record { tokens = tokens; last_update = now }) rl.entries },
        record { allowed = false; remaining = 0; reset_at = reset_at },
      )
      else (
        record rl {
          entries = put ip (record { tokens = tokens - 1; last_update = now }) rl.entries;
        },
        record { allowed = true; remaining = tokens - 1; reset_at = reset_at },
      )

  unfoldable pub allow : Text → ℕ → Limiter → Limiter × Answer
  unfolding refill
  allow ip now rl =
      let n = rl.requests_per_minute in
      spend ip now (refill n now (or_full n now (get ip rl.entries))) rl

-- getClientIP
unfoldable pub get_client_ip : Request → Text
unfolding header_get cut_at
get_client_ip r =
    let xff = header_get "X-Forwarded-For" r.headers in
    if is_empty xff then r.remote_addr else trim_space (cut_at b',' xff).0

-- RateLimit's guard on its first argument; the second one has no effect.
abbrev pub effective_rate : ℤ → ℕ
effective_rate n = if leb_ℤ n (pos 0) then 60 else pos_part n

unfoldable pub too_many : Writer → Writer
too_many w =
    write (plain "{\"error\":\"rate limit exceeded\"}")
      (write_header 429 (set_header "Content-Type" (codes "application/json") w))

unfoldable pub limit_headers : ℕ → Answer → Writer → Writer
limit_headers n a w = set_header "X-RateLimit-Reset" (format_nat a.reset_at) (
    set_header "X-RateLimit-Remaining" (format_nat a.remaining)
      (set_header "X-RateLimit-Limit" (format_nat n) w))

-- The handler that RateLimit returns, over the limiter that it made.
unfoldable pub rate_limit : Float64 → ℕ → Middleware Limiter
unfolding allow get_client_ip too_many limit_headers
rate_limit fl now r rl w =
    let (rl', a) = allow fl (get_client_ip r) now rl in
    let w' = limit_headers rl.requests_per_minute a w in
    if a.allowed
    then record { state = rl'; writer = w'; verdict = pass r }
    else record { state = rl'; writer = too_many w'; verdict = answered }
