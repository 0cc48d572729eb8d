-- ===== src/Tests/Limits.antt =====
-- The middleware with concrete requests; float64 is taken as exact fractions.
use web_mail.Base.{
  true, ℕ, ◌≡◌, refl, ◌≤◌, ◌+◌, ◌*◌, ◌/◌, List, [], ◌∷◌, map, Text, codes, pos, arith, text_eq,
}
use web_mail.Base.Assoc.{get, put, remove}
use web_mail.Http.{Request}
use web_mail.Middleware.RateLimit.{
  Float64, window, Answer, recovered, refill, Limiter, new_rate_limiter,
}
use web_mail.Middleware.RateLimit.Steps.{scale, slack, IsRounded}
use web_mail.Middleware.RateLimit.Bound.{Event, call, tick, admitted, admitted-le}
use web_mail.Middleware.RateLimit.Forgetting.{IsGenerous, answers, ideal, forgetting_lem}
use web_mail.Middleware.RateLimit.Interleaving.{
  Act, start, finish, expire, new_shared, begin_call, delete_stale, replies, finished,
}
use web_mail.Middleware.RateLimit.Interleaving.Simulation.{IsOrderly}
use web_mail.Middleware.RateLimit.Interleaving.Laws.{interleaved_lem}
use web_mail.Middleware.RateLimit.Laws.{hasty_starves}
use web_mail.Tests.{post}

abbrev pub exact : Float64
exact = record {
  Float = ℕ × ℕ;
  of_int = λ n. (n, 1);
  seconds = λ e. (e, 1000000000);
  mul = λ a b. (a.0 * b.0, a.1 * b.1);
  div = λ a b. (a.0 * b.1, a.1 * b.0);
  to_int = λ a. a.0 / a.1;
}

fraction-le : (k : ℕ) → k * 1000000000 / (1000000000 * window) * scale ≤ k * slack
fraction-le k = omega arith

pub exact-IsRounded : IsRounded exact
exact-IsRounded = record { bounded = λ n e. fraction-le (e * n) }

abbrev client : Text
client = codes "192.0.2.7"

abbrev events : List Event
events = call client 0 ∷ call client 1 ∷ tick 5 ∷ call client 10 ∷ []

admitted-le_example :
    admitted exact client events (new_rate_limiter 2) * scale + 0 * 2 * slack
    ≤ 2 * scale + 10 * 2 * slack
admitted-le_example = admitted-le exact client 2 0 10 events exact-IsRounded (omega arith)

-- A limiter of one request per minute, whose client retries every half minute.
abbrev spent : Limiter
spent = record {
  requests_per_minute = 1;
  entries = (client, record { tokens = 0; last_update = 0 }) ∷ [];
}

abbrev retries : List ℕ
retries = 30000000000 ∷ 60000000000 ∷ 90000000000 ∷ []

hasty_starves_example : admitted exact client (map (call client) retries) spent ≡ 0
unfolding get text_eq
hasty_starves_example =
    hasty_starves exact client 0 retries spent exact-IsRounded refl (omega arith)

abbrev small : Request
small = record post { content_length = pos 2; body = codes "hi" }

abbrev from_site : Request
from_site = record post { headers = ("Origin", codes "https://a.example") ∷ [] }

restored-le : (n k : ℕ) → window * n ≤ k → n ≤ k * 1000000000 / (1000000000 * window)
restored-le n k h = omega arith

product-le : (n e : ℕ) → window ≤ e → window * n ≤ e * n
product-le n e h = grind arith

exact-IsGenerous : IsGenerous exact
exact-IsGenerous = record { restores = λ n e small h. restored-le n (e * n) (product-le n e h) }

abbrev pause : List Event
pause = call client 0 ∷ call client 1 ∷ tick 70000000000 ∷ call client 80000000000 ∷ []

forgetting_lem_example :
    answers exact pause (new_rate_limiter 2)
    ≡ ideal exact 2 pause (λ ip. record { tokens = 2; last_update = 0 })
forgetting_lem_example =
    forgetting_lem exact 2 0 80000000000 pause exact-IsGenerous (omega arith) (omega arith)

-- Two calls that find their entry before either locks it, and one behind a pause.
abbrev acts : List Act
acts =
    start 0 client 0
    ∷ start 1 client 1
    ∷ finish 0
    ∷ finish 1
    ∷ expire client 70000000000
    ∷ start 2 client 80000000000
    ∷ finish 2
    ∷ []

acts-IsOrderly : IsOrderly exact 0 acts (new_shared 2)
unfolding IsOrderly begin_call delete_stale get put text_eq
acts-IsOrderly = (omega arith, refl, (omega arith, refl, (omega arith, (omega arith, refl, tt))))

interleaved_lem_example :
    replies exact acts (new_shared 2)
    ≡ ideal exact 2
        (finished exact acts (new_shared 2))
        (λ ip. record { tokens = 2; last_update = 0 })
interleaved_lem_example =
    interleaved_lem exact 2 0 acts exact-IsGenerous (omega arith) acts-IsOrderly

-- With one request per minute: a call that holds a deleted entry spends nothing of the new one.
abbrev orphaned : List Act
orphaned =
    start 0 client 0
    ∷ finish 0
    ∷ start 1 client 70000000000
    ∷ expire client 70000000000
    ∷ start 2 client 70000000000
    ∷ finish 1
    ∷ finish 2
    ∷ []

orphaned_test :
    map (λ (a : Answer). a.allowed) (replies exact orphaned (new_shared 1))
    ≡ true ∷ true ∷ true ∷ []
unfolding replies begin_call delete_stale get put remove text_eq refill recovered
orphaned_test = refl
