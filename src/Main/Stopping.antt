-- ===== src/Main/Stopping.antt =====
-- How the process ends.
use web_mail.Base.{ℕ, zero, suc, ◌<◌, ◌≡◌, refl, true, false, ◌⊎◌, inl, inr, arith}
use web_mail.Main.Shutdown.{
  MainAt, selecting, stopping, draining, awaiting, exited, ServerAt, launched, assigned, listening,
  sent, returned, done, Process, initial, Actor, own, Step, signal_arrives, assign, listen, refuse,
  close_listener, bind_fails, accept_fails, send, close_failed, close_clean, take_signal,
  select_error, select_closed, skip_shutdown, begin_shutdown, drained, drain_fails, await_error,
  await_closed, Reaches, rank, Ends, over, goes_on,
}
use web_mail.Main.Consistent.{
  IsConsistent, at, main_at, Step-IsConsistent, Reaches-IsConsistent, initial-IsConsistent,
}

rank-lt : {a : Actor} {p q : Process} → Step a p q → rank q < rank p
rank-lt (signal_arrives e) = rw e (omega arith)
rank-lt (assign e) = rw e (omega arith)
rank-lt (listen e f) = rw e (omega arith)
rank-lt (refuse e f) = rw e (omega arith)
rank-lt (close_listener e f) = rw e (omega arith)
rank-lt (bind_fails e) = rw e (omega arith)
rank-lt (accept_fails e f) = rw e (omega arith)
rank-lt (send e) = rw e (omega arith)
rank-lt (close_failed e) = rw e (omega arith)
rank-lt (close_clean e) = rw e (omega arith)
rank-lt (take_signal e f) = rw (e, f) (omega arith)
rank-lt (select_error e f) = rw e (omega arith)
rank-lt (select_closed e f g) = rw e (omega arith)
rank-lt (skip_shutdown e f) = rw e (omega arith)
rank-lt (begin_shutdown e f) = rw e (omega arith)
rank-lt (drained e) = rw e (omega arith)
rank-lt (drain_fails e) = rw e (omega arith)
rank-lt (await_error e f) = rw e (omega arith)
rank-lt (await_closed e f g) = rw e (omega arith)

-- The process leaves with code 0 only when the http.Server was shut down and has stopped without
-- an error: an error that the server returns is never lost.
pub exit-IsClean :
    (p : Process)
    → Reaches initial p
    → p.main ≡ exited 0
    → (p.closing ≡ true) × (p.server ≡ done false)
exit-IsClean p r e =
    let h = Reaches-IsConsistent r initial-IsConsistent in
    let stopped = main_at h (exited 0) e in ((at h (done false) stopped).3, stopped)

Step-closing : {a : Actor} {p q : Process} → Step a p q → p.closing ≡ true → q.closing ≡ true
Step-closing (begin_shutdown e f) c = refl
Step-closing _ c = c

-- A server that was told to shut down, and main behind that, always have a step to take.
goroutine_moves :
    {p : Process}
    → IsConsistent p
    → p.main ≡ awaiting
    → p.closing ≡ true
    → (s : ServerAt) → p.server ≡ s
    → (q : Process) × Step own p q
goroutine_moves h e c launched s = absurd (cc (h.closing c, (at h launched s).0))
goroutine_moves h e c assigned s = (_, refuse s c)
goroutine_moves h e c listening s = (_, close_listener s c)
goroutine_moves h e c sent s = (_, close_failed s)
goroutine_moves h e c (returned true) s = (_, send s)
goroutine_moves h e c (returned false) s = (_, close_clean s)
goroutine_moves h e c (done true) s = elim (at h (done true) s).1 [
  | inl full ↦ (_, await_error e full)
  | inr left ↦ absurd (cc (e, left))
]
goroutine_moves h e c (done false) s =
    let (set, empty, closed, c') = at h (done false) s in (_, await_closed e empty closed)

Ends-by :
    {p : Process}
    → ((q : Process) × Step own p q) ⊎ ((code : ℕ) × (p.main ≡ exited code))
    → ((a : Actor) (r : Process) → Step a p r → Ends r)
    → Ends p
Ends-by (inl (q, e)) next = goes_on e next
Ends-by (inr (code, e)) next = over code e

progress :
    {p : Process}
    → IsConsistent p
    → p.closing ≡ true
    → (m : MainAt) → p.main ≡ m
    → ((q : Process) × Step own p q) ⊎ ((code : ℕ) × (p.main ≡ exited code))
progress h c selecting e = absurd (cc (main_at h selecting e, c))
progress h c stopping e = absurd (cc (main_at h stopping e, c))
progress h c draining e = inl (_, drained e)
progress h c awaiting e = inl (goroutine_moves h e c _ refl)
progress h c (exited code) e = inr (code, e)

-- Main has taken a signal, or will.
abbrev IsCalled : Process → Type 0
IsCalled p = (p.main ≡ stopping) ⊎ ((p.main ≡ selecting) × (p.signal ≡ true))

-- The http.Server is told to shut down or will be, or main has left.
abbrev IsDoomed : Process → Type 0
IsDoomed p =
    (p.closing ≡ true) ⊎ (((p.http ≡ true) × IsCalled p) ⊎ ((code : ℕ) × (p.main ≡ exited code)))

Step-IsDoomed : {a : Actor} {p q : Process} → Step a p q → p.http ≡ true → IsCalled p → IsDoomed q
Step-IsDoomed (assign e) set called = inr (inl (refl, called))
Step-IsDoomed (signal_arrives e) set (inl called) = inr (inl (set, inl called))
Step-IsDoomed (signal_arrives e) set (inr (called, full)) = inr (inl (set, inr (called, refl)))
Step-IsDoomed (take_signal e f) set called = inr (inl (set, inl refl))
Step-IsDoomed (select_error e f) set called = inr (inr (1, refl))
Step-IsDoomed (select_closed e f g) set called = inr (inr (0, refl))
Step-IsDoomed (skip_shutdown e f) set called = absurd (cc (set, f))
Step-IsDoomed (begin_shutdown e f) set called = inl refl
Step-IsDoomed (drained e) set (inl called) = absurd (cc (e, called))
Step-IsDoomed (drained e) set (inr (called, full)) = absurd (cc (e, called))
Step-IsDoomed (drain_fails e) set called = inr (inr (1, refl))
Step-IsDoomed (await_error e f) set called = inr (inr (1, refl))
Step-IsDoomed (await_closed e f g) set called = inr (inr (0, refl))
Step-IsDoomed _ set called = inr (inl (set, called))

doomed-Ends : (n : ℕ) (p : Process) → rank p < n → IsConsistent p → IsDoomed p → Ends p
doomed-Ends zero p bound h doom = absurd (omega arith)
doomed-Ends (suc n) p bound h (inl c) = Ends-by (progress h c p.main refl) (λ a r e.
    let smaller = rank-lt e in
    doomed-Ends n r (omega arith) (Step-IsConsistent e h) (inl (Step-closing e c)))
doomed-Ends (suc n) p bound h (inr (inl (set, called))) = Ends-by (inl (told called)) (λ a r e.
    let smaller = rank-lt e in
    doomed-Ends n r (omega arith) (Step-IsConsistent e h) (Step-IsDoomed e set called))
  where
    told : IsCalled p → (q : Process) × Step own p q
    told (inl e) = (_, begin_shutdown e set)
    told (inr (e, full)) = (_, take_signal e full)
doomed-Ends (suc n) p bound h (inr (inr (code, e))) = over code e

doomed : (p : Process) → Reaches initial p → IsDoomed p → Ends p
doomed p r doom =
    doomed-Ends (suc (rank p)) p (omega arith) (Reaches-IsConsistent r initial-IsConsistent) doom

-- Once Shutdown of the http.Server was called, the process ends, in whatever order main, the
-- goroutine and the world go on.
shutdown-Ends : (p : Process) → Reaches initial p → p.closing ≡ true → Ends p
shutdown-Ends p r c = doomed p r (inl c)

-- A signal that waits for main at its select once Start has set s.http ends the process, in whatever
-- order main, the goroutine and the world go on: the process has a step of its own until main has
-- left, and cannot take steps forever.
pub signal-Ends :
    (p : Process)
    → Reaches initial p
    → p.http ≡ true
    → p.main ≡ selecting
    → p.signal ≡ true
    → Ends p
signal-Ends p r set e full = doomed p r (inr (inl (set, inr (e, full))))
