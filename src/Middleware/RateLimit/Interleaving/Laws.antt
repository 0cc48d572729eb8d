-- ===== src/Middleware/RateLimit/Interleaving/Laws.antt =====
-- What interleaved calls answer.
use web_mail.Base.{
  ℕ, ◌+◌, ◌-◌, ◌/◌, ◌≤◌, ◌^◌, ◌≡◌, refl, ap, ◌∙◌, List, [], ◌∷◌, Text, ltb, inl, inr, Option-cases,
}
use web_mail.Base.Assoc.{get}
use web_mail.Middleware.RateLimit.{Float64, window, Entry, Answer, refill}
use web_mail.Middleware.RateLimit.Forgetting.{IsGenerous, ideal, refill_new}
use web_mail.Middleware.RateLimit.Interleaving.{
  Shared, new_shared, begin_call, delete_stale, end_call, Act, start, finish, expire, replies,
  finished,
}
use web_mail.Middleware.RateLimit.Interleaving.Simulation.{
  IsOrderly, Simulates, loaded-Simulates, delete_at-Simulates, found-bucket, end_call-Simulates,
}

abbrev answer_with : ℕ → ℕ → Answer
answer_with tokens now = record {
  allowed = ltb 0 tokens;
  remaining = tokens - 1;
  reset_at = (now + window) / 1000000000;
}

module _ (fl : Float64) where
  module _ (generous : IsGenerous fl) (n : ℕ) (small : n ≤ 2 ^ 32) where
    replies-ideal :
        (c : ℕ) (acts : List Act) (s : Shared) (buckets : Text → Entry)
        → IsOrderly fl c acts s
        → Simulates fl n c s buckets
        → replies fl acts s ≡ ideal fl n (finished fl acts s) buckets
    unfolding replies finished ideal begin_call delete_stale IsOrderly
    replies-ideal c [] s buckets ordered h = refl
    replies-ideal c (start id ip now ∷ acts) s buckets ordered h =
        replies-ideal c acts (begin_call id ip now s) buckets ordered
          (loaded-Simulates fl n c s buckets h id ip now _ refl)
    replies-ideal c (expire ip now ∷ acts) s buckets (later, ordered) h =
        replies-ideal now acts (delete_stale ip now s) buckets ordered
          (delete_at-Simulates fl n c s buckets h ip now _ generous small later refl)
    replies-ideal c (finish id ∷ acts) s buckets ordered h = elim (Option-cases (s.pending id)) [
      | inl idle ↦
          rw (replies, finished, idle)
            (replies-ideal c acts s buckets (rw (IsOrderly, idle) at ordered) h)
      | inr (k, taken) ↦
          let (later, here, rest) = rw (IsOrderly, taken) at ordered in
          let (same, bounded) = found-bucket fl n c s buckets h k later here in
          let rest_same =
            replies-ideal k.now acts (end_call fl id k s) _ rest
              (end_call-Simulates fl n c s buckets h id k later here) in
          rw (replies, finished, taken, ideal)
            (ap (λ tokens. answer_with tokens k.now ∷ replies fl acts (end_call fl id k s)) same
              ∙ ap (λ l. answer_with (refill fl n k.now (buckets k.ip)) k.now ∷ l) rest_same)
    ]

-- However calls of several goroutines interleave between finding their entries and locking them, and
-- whatever keys cleanup deletes, each call is answered as by a limiter in which every client has had a
-- full bucket from the start: if the calls lock and the keys are deleted in the order of their
-- instants, and no entry is deleted between a call's LoadOrStore and its lock. It holds for rates
-- up to 2^32, if a minute restores at least the rate's tokens in float64.
pub interleaved_lem :
    (fl : Float64) (n c : ℕ) (acts : List Act)
    → IsGenerous fl
    → n ≤ 2 ^ 32
    → IsOrderly fl c acts (new_shared n)
    → replies fl acts (new_shared n)
      ≡ ideal fl n (finished fl acts (new_shared n)) (λ ip. record { tokens = n; last_update = c })
unfolding get
interleaved_lem fl n c acts generous small ordered =
    replies-ideal fl generous n small c acts (new_shared n) _ ordered (record {
      rate = refl;
      shows = λ ip t later. refill_new fl n c t;
      below = λ ip a e. cc;
      apart = λ i j a e f. cc;
    })
