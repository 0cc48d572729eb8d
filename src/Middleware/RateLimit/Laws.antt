-- ===== src/Middleware/RateLimit/Laws.antt =====
-- What a client of the limiter meets: its own bucket, its headers, and waits that are too short.
use web_mail.Base.{
  ℕ, ◌-◌, ◌*◌, ◌≤◌, ◌<◌, ◌≡◌, refl, none, some, List, [], ◌∷◌, map, Text, text_eq, text_eq_refl,
  arith, ltb, if◌then◌else◌,
}
use native.Mathlib.Nat.{zero-add}
use web_mail.Base.Assoc.{get, get-put, put}
use web_mail.Strconv.{format_nat}
use web_mail.Http.{Request, Writer, Outcome, pass, answered, header_get, status_of}
use web_mail.Middleware.RateLimit.{
  Float64, Entry, Limiter, allow, recovered, refill, rate_limit, get_client_ip,
}
use web_mail.Middleware.RateLimit.Steps.{
  scale, slack, IsRounded, tokens_at, left_with, allow-state, allow-allowed,
}
use web_mail.Middleware.RateLimit.Bound.{call, admitted}

module _ (fl : Float64) where
  -- What the limiter answers to a request, and what it keeps.
  pub record IsServed (now : ℕ) (r : Request) (rl : Limiter) (o : Outcome Limiter) : Type 0 where
    pub entry : Entry
    -- the bucket of the request's own client is the new entry; nobody else's changes
    pub kept :
        (j : Text)
        → get j o.state.entries
          ≡ (if text_eq (get_client_ip r) j then some entry else get j rl.entries)
    -- one token less if there was one
    pub spent : entry.tokens ≡ tokens_at fl (get_client_ip r) now rl - 1
    pub dated : entry.last_update ≡ now
    pub passes :
        o.verdict ≡ (if ltb 0 (tokens_at fl (get_client_ip r) now rl) then pass r else answered)
    -- the header tells how many requests are left
    pub header : header_get "X-RateLimit-Remaining" o.writer.headers ≡ format_nat entry.tokens
    pub status :
        status_of o.writer
        ≡ (if ltb 0 (tokens_at fl (get_client_ip r) now rl) then none else some 429)

  allow-remaining :
      (j : Text) (t : ℕ) (rl : Limiter) → (allow fl j t rl).1.remaining ≡ tokens_at fl j t rl - 1
  unfolding allow
  allow-remaining j t rl = ground arith

  -- A request with a fresh writer spends one token of its own client and passes if there is one,
  -- and is answered with status 429 if there is none; the header gives the tokens that are left,
  -- and no other client's bucket changes.
  pub rate_limit-IsServed :
      (now : ℕ) (r : Request) (rl : Limiter) (w : Writer)
      → w.sent ≡ none
      → IsServed now r rl (rate_limit fl now r rl w)
  unfolding rate_limit
  rate_limit-IsServed now r rl w fresh =
      let ip = get_client_ip r in
      let tokens = tokens_at fl ip now rl in
      record {
        entry = left_with fl tokens now;
        kept = λ j. ground (arith, get-put ip j (left_with fl tokens now) rl.entries);
        spent = refl;
        dated = refl;
        passes = ground arith;
        header = ground arith;
        status = ground arith;
      }

  -- The instants of retries that each come less than a token's time behind the one before.
  abbrev pub AreHasty : ℕ → ℕ → List ℕ → Type 0
  AreHasty n last [] = Unit
  AreHasty n last (t ∷ ts) = (last ≤ t) × ((t - last) * n * slack < scale) × AreHasty n t ts

  hasty-refill :
      (n last t : ℕ)
      → IsRounded fl
      → last ≤ t
      → (t - last) * n * slack < scale
      → refill fl n t (record { tokens = 0; last_update = last }) ≡ 0
  unfolding refill recovered
  hasty-refill n last t h later soon = ground (arith, h.bounded n (t - last))

  -- A client without tokens that retries each time before a whole token has been restored is never
  -- let in again, however long it goes on: each refused request restarts the clock of its bucket.
  pub hasty_starves :
      (ip : Text) (last : ℕ) (ts : List ℕ) (rl : Limiter)
      → IsRounded fl
      → get ip rl.entries ≡ some (record { tokens = 0; last_update = last })
      → AreHasty rl.requests_per_minute last ts
      → admitted fl ip (map (call ip) ts) rl ≡ 0
  unfolding admitted
  hasty_starves ip last [] rl h e soon = refl
  hasty_starves ip last (t ∷ ts) rl h e (later, soon, more) =
      let n = rl.requests_per_minute in
      let empty : tokens_at fl ip t rl ≡ 0 = rw e (hasty-refill n last t h later soon) in
      let again =
        hasty_starves ip t ts (record rl { entries = put ip (left_with fl 0 t) rl.entries }) h
          (rw (get-put, text_eq_refl ip)) more in
      rw (text_eq_refl ip, allow-allowed fl ip t rl, allow-state fl ip t rl, empty, zero-add) again
