-- ===== src/Middleware/RateLimit/Interleaving.antt =====
-- internal/middleware/ratelimit.go with its locks: Allow finds its entry in the map first and locks it
-- later, and cleanup deletes one key at a time, so the calls of several goroutines interleave. The
-- entries are on a heap, since a deleted one can still be held by a call.
pub mod Simulation
pub mod Laws
use web_mail.Base.{
  ℕ, suc, ◌+◌, ◌-◌, ◌/◌, Bool, Option, none, some, List, [], ◌∷◌, Text, ltb, ◌==◌, if◌then◌else◌,
}
use web_mail.Base.Assoc.{get, put, remove}
use web_mail.Middleware.RateLimit.{Float64, window, Entry, Answer, stale, refill}
use web_mail.Middleware.RateLimit.Bound.{Event, call}

-- A call of Allow between its LoadOrStore and its lock, with the instant that it took first.
pub record Call : Type 0 where
  pub ip : Text
  pub address : ℕ
  pub now : ℕ

pub record Shared : Type 0 where
  pub requests_per_minute : ℕ
  pub entries : List (Text × ℕ)
  pub heap : ℕ → Entry
  -- the first address that is free
  pub size : ℕ
  pub pending : ℕ → Option Call

-- newRateLimiter; nothing is on the heap yet
abbrev pub new_shared : ℕ → Shared
new_shared n = record {
  requests_per_minute = n;
  entries = [];
  heap = λ a. record { tokens = n; last_update = 0 };
  size = 0;
  pending = λ id. none;
}

abbrev pub write_at : {A : Type 0} → ℕ → A → (ℕ → A) → ℕ → A
write_at a x f b = if a == b then x else f b

abbrev pub held : ℕ → Text → ℕ → ℕ → Shared → Shared
held id ip now a s = record s {
  pending = write_at id (some (record { ip = ip; address = a; now = now })) s.pending;
}

abbrev pub loaded : ℕ → Text → ℕ → Option ℕ → Shared → Shared
loaded id ip now (some a) s = held id ip now a s
loaded id ip now none s = held id ip now s.size (record s {
  entries = put ip s.size s.entries;
  heap = write_at s.size (record { tokens = s.requests_per_minute; last_update = now }) s.heap;
  size = suc s.size;
})

-- Allow of the request `id` up to its LoadOrStore.
unfoldable pub begin_call : ℕ → Text → ℕ → Shared → Shared
begin_call id ip now s = loaded id ip now (get ip s.entries) s

abbrev pub delete_at : Text → ℕ → Option ℕ → Shared → Shared
delete_at ip now none s = s
delete_at ip now (some a) s =
    if stale now (s.heap a) then record s { entries = remove ip s.entries } else s

-- What cleanup does with one key of the map, under the lock of its entry.
unfoldable pub delete_stale : Text → ℕ → Shared → Shared
unfolding stale
delete_stale ip now s = delete_at ip now (get ip s.entries) s

module _ (fl : Float64) where
  -- The tokens that a call finds in its entry, and the state and the answer behind its lock.
  abbrev pub found : Call → Shared → ℕ
  found c s = refill fl s.requests_per_minute c.now (s.heap c.address)

  abbrev pub end_call : ℕ → Call → Shared → Shared
  end_call id c s = record s {
    heap = write_at c.address (record { tokens = found c s - 1; last_update = c.now }) s.heap;
    pending = write_at id none s.pending;
  }

  abbrev pub answer_of : Call → Shared → Answer
  answer_of c s = record {
    allowed = ltb 0 (found c s);
    remaining = found c s - 1;
    reset_at = (c.now + window) / 1000000000;
  }

pub data Act : Type 0 where
  start : ℕ → Text → ℕ → Act
  finish : ℕ → Act
  expire : Text → ℕ → Act

module _ (fl : Float64) where
  -- What the calls answer, in the order in which they lock.
  unfoldable pub replies : List Act → Shared → List Answer
  replies [] s = []
  replies (start id ip now ∷ acts) s = replies acts (begin_call id ip now s)
  replies (expire ip now ∷ acts) s = replies acts (delete_stale ip now s)
  replies (finish id ∷ acts) s = elim (s.pending id) [
    | none ↦ replies acts s
    | some c ↦ answer_of fl c s ∷ replies acts (end_call fl id c s)
  ]

  -- The calls in that order.
  unfoldable pub finished : List Act → Shared → List Event
  finished [] s = []
  finished (start id ip now ∷ acts) s = finished acts (begin_call id ip now s)
  finished (expire ip now ∷ acts) s = finished acts (delete_stale ip now s)
  finished (finish id ∷ acts) s = elim (s.pending id) [
    | none ↦ finished acts s
    | some c ↦ call c.ip c.now ∷ finished acts (end_call fl id c s)
  ]
