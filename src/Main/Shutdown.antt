-- ===== src/Main/Shutdown.antt =====
-- The end of cmd/server/main.go, with Start and Shutdown of internal/server: main and the goroutine
-- that serves, whose steps interleave. What net/http does is in the steps that say so.
use web_mail.Base.{ℕ, ◌+◌, ◌≡◌, Bool, true, false}

-- Where main is: at its select, in Shutdown before s.http is read, in Shutdown of the http.Server, or
-- at the last receive. It has left with a code otherwise.
pub data MainAt : Type 0 where
  selecting stopping draining awaiting : MainAt
  exited : ℕ → MainAt

-- Where the goroutine is: s.http is not set, or is set, or ListenAndServe accepts connections, or has
-- returned, or the error was sent, or the channel was closed. The flag is whether it returned an error
-- other than ErrServerClosed.
pub data ServerAt : Type 0 where
  launched assigned listening sent : ServerAt
  returned done : Bool → ServerAt

pub record Process : Type 0 where
  pub main : MainAt
  pub server : ServerAt
  -- whether s.http is set, and whether its Shutdown was called
  pub http : Bool
  pub closing : Bool
  -- serverErrors: whether it holds an error, and whether it is closed
  pub errors : Bool
  pub closed : Bool
  -- whether `signals` holds a signal
  pub signal : Bool

-- After signal.Notify; the goroutine has done nothing yet.
abbrev pub initial : Process
initial = record {
  main = selecting;
  server = launched;
  http = false;
  closing = false;
  errors = false;
  closed = false;
  signal = false;
}

-- Steps of the program and of net/http, which are taken sooner or later, and of the world, which
-- may never be.
pub data Actor : Type 0 where
  own outside : Actor

pub data Step : Actor → Process → Process → Type 0 where
  -- signals has room for one; a further one is dropped
  signal_arrives : {p : Process} → p.signal ≡ false → Step outside p (record p { signal = true })
  -- Start
  assign :
      {p : Process} → p.server ≡ launched → Step own p (record p { server = assigned; http = true })
  listen :
      {p : Process}
      → p.server ≡ assigned
      → p.closing ≡ false
      → Step own p (record p { server = listening })
  -- ListenAndServe behind or during a Shutdown returns ErrServerClosed
  refuse :
      {p : Process}
      → p.server ≡ assigned
      → p.closing ≡ true
      → Step own p (record p { server = returned false })
  close_listener :
      {p : Process}
      → p.server ≡ listening
      → p.closing ≡ true
      → Step own p (record p { server = returned false })
  -- it returns another error if the address cannot be bound, or accepting fails
  bind_fails :
      {p : Process} → p.server ≡ assigned → Step outside p (record p { server = returned true })
  accept_fails :
      {p : Process}
      → p.server ≡ listening
      → p.closing ≡ false
      → Step outside p (record p { server = returned true })
  send :
      {p : Process}
      → p.server ≡ returned true
      → Step own p (record p { server = sent; errors = true })
  close_failed :
      {p : Process} → p.server ≡ sent → Step own p (record p { server = done true; closed = true })
  close_clean :
      {p : Process}
      → p.server ≡ returned false
      → Step own p (record p { server = done false; closed = true })
  -- the select
  take_signal :
      {p : Process}
      → p.main ≡ selecting
      → p.signal ≡ true
      → Step own p (record p { main = stopping; signal = false })
  select_error :
      {p : Process}
      → p.main ≡ selecting
      → p.errors ≡ true
      → Step own p (record p { main = exited 1; errors = false })
  select_closed :
      {p : Process}
      → p.main ≡ selecting
      → p.errors ≡ false
      → p.closed ≡ true
      → Step own p (record p { main = exited 0 })
  -- Shutdown; that of the http.Server returns nil or an error, by the deadline of its context
  skip_shutdown :
      {p : Process} → p.main ≡ stopping → p.http ≡ false → Step own p (record p { main = awaiting })
  begin_shutdown :
      {p : Process}
      → p.main ≡ stopping
      → p.http ≡ true
      → Step own p (record p { main = draining; closing = true })
  drained : {p : Process} → p.main ≡ draining → Step own p (record p { main = awaiting })
  drain_fails : {p : Process} → p.main ≡ draining → Step own p (record p { main = exited 1 })
  -- the last receive
  await_error :
      {p : Process}
      → p.main ≡ awaiting
      → p.errors ≡ true
      → Step own p (record p { main = exited 1; errors = false })
  await_closed :
      {p : Process}
      → p.main ≡ awaiting
      → p.errors ≡ false
      → p.closed ≡ true
      → Step own p (record p { main = exited 0 })

-- The states that the process can come to.
pub data Reaches (p : Process) : Process → Type 0 where
  here : Reaches p p
  onward : {q r : Process} {a : Actor} → Reaches p q → Step a q r → Reaches p r

abbrev main_rank : MainAt → ℕ
main_rank selecting = 6
main_rank stopping = 4
main_rank draining = 3
main_rank awaiting = 2
main_rank (exited code) = 0

abbrev server_rank : ServerAt → ℕ
server_rank launched = 5
server_rank assigned = 4
server_rank listening = 3
server_rank (returned failed) = 2
server_rank sent = 1
server_rank (done failed) = 0

abbrev signal_rank : Bool → ℕ
signal_rank true = 0
signal_rank false = 1

-- A number that each step makes smaller.
abbrev pub rank : Process → ℕ
rank p = main_rank p.main + (server_rank p.server + signal_rank p.signal)

-- Whatever happens, the process takes steps until main has left.
pub data Ends : Process → Type 0 where
  over : {p : Process} (code : ℕ) → p.main ≡ exited code → Ends p
  goes_on :
      {p q : Process} → Step own p q → ((a : Actor) (r : Process) → Step a p r → Ends r) → Ends p
