-- ===== src/Main/Consistent.antt =====
-- What holds in every state of the process.
use web_mail.Base.{zero, suc, ◌≢◌, ◌≡◌, refl, sym, ◌∙◌, subst, Bool, true, false, ◌⊎◌, inl, inr}
use web_mail.Main.Shutdown.{
  MainAt, selecting, stopping, draining, awaiting, exited, ServerAt, launched, assigned, listening,
  sent, returned, done, Process, initial, Actor, Step, signal_arrives, assign, listen, refuse,
  close_listener, bind_fails, accept_fails, send, close_failed, close_clean, take_signal,
  select_error, select_closed, skip_shutdown, begin_shutdown, drained, drain_fails, await_error,
  await_closed, Reaches, here, onward,
}

-- What each place of the goroutine says of the channel and of s.http, and each place of main.
abbrev pub ServerFits : Process → ServerAt → Type 0
ServerFits p launched = (p.http ≡ false) × (p.errors ≡ false) × (p.closed ≡ false)
ServerFits p assigned = (p.http ≡ true) × (p.errors ≡ false) × (p.closed ≡ false)
ServerFits p listening = (p.http ≡ true) × (p.errors ≡ false) × (p.closed ≡ false)
ServerFits p (returned true) = (p.http ≡ true) × (p.errors ≡ false) × (p.closed ≡ false)
ServerFits p (returned false) =
    (p.http ≡ true) × (p.errors ≡ false) × (p.closed ≡ false) × (p.closing ≡ true)
ServerFits p sent = (p.http ≡ true) × ((p.errors ≡ true) ⊎ (p.main ≡ exited 1)) × (p.closed ≡ false)
ServerFits p (done true) =
    (p.http ≡ true) × ((p.errors ≡ true) ⊎ (p.main ≡ exited 1)) × (p.closed ≡ true)
ServerFits p (done false) =
    (p.http ≡ true) × (p.errors ≡ false) × (p.closed ≡ true) × (p.closing ≡ true)

abbrev pub MainFits : Process → MainAt → Type 0
MainFits p selecting = p.closing ≡ false
MainFits p stopping = p.closing ≡ false
MainFits p draining = p.closing ≡ true
MainFits p awaiting = Unit
MainFits p (exited zero) = p.server ≡ done false
MainFits p (exited (suc code)) = Unit

pub record IsConsistent (p : Process) : Type 0 where
  pub server : ServerFits p p.server
  pub main : MainFits p p.main
  pub closing : p.closing ≡ true → p.http ≡ true

module _ (p q : Process) where
  MainFits-kept :
      (m : MainAt)
      → q.closing ≡ p.closing
      → (p.server ≡ done false → q.server ≡ done false)
      → MainFits p m
      → MainFits q m
  MainFits-kept selecting same still h = same ∙ h
  MainFits-kept stopping same still h = same ∙ h
  MainFits-kept draining same still h = same ∙ h
  MainFits-kept awaiting same still h = tt
  MainFits-kept (exited zero) same still h = still h
  MainFits-kept (exited (suc code)) same still h = tt

  -- A step of main that takes nothing from the channel.
  ServerFits-kept :
      (s : ServerAt)
      → (q.http ≡ p.http) × (q.errors ≡ p.errors) × (q.closed ≡ p.closed)
      → (p.closing ≡ true → q.closing ≡ true)
      → (p.main ≡ exited 1 → q.main ≡ exited 1)
      → ServerFits p s
      → ServerFits q s
  ServerFits-kept launched (a, b, c) later left (h, i, j) = (a ∙ h, b ∙ i, c ∙ j)
  ServerFits-kept assigned (a, b, c) later left (h, i, j) = (a ∙ h, b ∙ i, c ∙ j)
  ServerFits-kept listening (a, b, c) later left (h, i, j) = (a ∙ h, b ∙ i, c ∙ j)
  ServerFits-kept (returned true) (a, b, c) later left (h, i, j) = (a ∙ h, b ∙ i, c ∙ j)
  ServerFits-kept (returned false) (a, b, c) later left (h, i, j, k) =
      (a ∙ h, b ∙ i, c ∙ j, later k)
  ServerFits-kept sent (a, b, c) later left (h, inl i, j) = (a ∙ h, inl (b ∙ i), c ∙ j)
  ServerFits-kept sent (a, b, c) later left (h, inr i, j) = (a ∙ h, inr (left i), c ∙ j)
  ServerFits-kept (done true) (a, b, c) later left (h, inl i, j) = (a ∙ h, inl (b ∙ i), c ∙ j)
  ServerFits-kept (done true) (a, b, c) later left (h, inr i, j) = (a ∙ h, inr (left i), c ∙ j)
  ServerFits-kept (done false) (a, b, c) later left (h, i, j, k) = (a ∙ h, b ∙ i, c ∙ j, later k)

  -- Main has received the error.
  ServerFits-received :
      (s : ServerAt)
      → (q.http ≡ p.http) × (q.closed ≡ p.closed)
      → p.errors ≡ true
      → q.main ≡ exited 1
      → ServerFits p s
      → ServerFits q s
  ServerFits-received sent (a, c) full left (h, i, j) = (a ∙ h, inr left, c ∙ j)
  ServerFits-received (done true) (a, c) full left (h, i, j) = (a ∙ h, inr left, c ∙ j)
  ServerFits-received launched (a, c) full left (h, i, j) = absurd (cc (i, full))
  ServerFits-received assigned (a, c) full left (h, i, j) = absurd (cc (i, full))
  ServerFits-received listening (a, c) full left (h, i, j) = absurd (cc (i, full))
  ServerFits-received (returned true) (a, c) full left (h, i, j) = absurd (cc (i, full))
  ServerFits-received (returned false) (a, c) full left (h, i, j, k) = absurd (cc (i, full))
  ServerFits-received (done false) (a, c) full left (h, i, j, k) = absurd (cc (i, full))

module _ {p : Process} (h : IsConsistent p) where
  -- The goroutine moves on from a place that is not the clean end.
  moved-IsConsistent :
      (s : ServerAt) (http errors closed : Bool)
      → (p.server ≡ done false → s ≡ done false)
      → (p.closing ≡ true → http ≡ true)
      → (let q = record p { server = s; http = http; errors = errors; closed = closed } in
          ServerFits q s)
      → IsConsistent (record p { server = s; http = http; errors = errors; closed = closed })
  moved-IsConsistent s http errors closed still set fits = record {
    server = fits;
    main =
        MainFits-kept p (record p { server = s; http = http; errors = errors; closed = closed })
          p.main refl still h.main;
    closing = set;
  }

  signal-MainFits : (b : Bool) → MainFits (record p { signal = b }) p.main
  signal-MainFits b = MainFits-kept p (record p { signal = b }) p.main refl (λ c. c) h.main

  -- Main takes nothing from the channel, or the error.
  stepped-IsConsistent :
      {q : Process}
      → (q.server ≡ p.server) × (q.http ≡ p.http) × (q.errors ≡ p.errors) × (q.closed ≡ p.closed)
      → (p.closing ≡ true → q.closing ≡ true)
      → (p.main ≡ exited 1 → q.main ≡ exited 1)
      → MainFits q q.main
      → (q.closing ≡ true → q.http ≡ true)
      → IsConsistent q
  stepped-IsConsistent {q} (a, b, c, d) later left fits set = record {
    server =
        subst (ServerFits q) (sym a) (ServerFits-kept p q p.server (b, c, d) later left h.server);
    main = fits;
    closing = set;
  }

  received-IsConsistent :
      {q : Process}
      → (q.server ≡ p.server) × (q.http ≡ p.http) × (q.closed ≡ p.closed)
      → p.errors ≡ true
      → q.main ≡ exited 1
      → MainFits q q.main
      → (q.closing ≡ true → q.http ≡ true)
      → IsConsistent q
  received-IsConsistent {q} (a, b, d) full left fits set = record {
    server =
        subst (ServerFits q) (sym a) (ServerFits-received p q p.server (b, d) full left h.server);
    main = fits;
    closing = set;
  }

  -- The channel is closed and empty only behind a Shutdown.
  pub clean_end :
      (s : ServerAt)
      → p.errors ≡ false
      → p.closed ≡ true
      → p.main ≢ exited 1
      → ServerFits p s
      → s ≡ done false
  clean_end launched empty closed running (a, b, c) = absurd (cc (c, closed))
  clean_end assigned empty closed running (a, b, c) = absurd (cc (c, closed))
  clean_end listening empty closed running (a, b, c) = absurd (cc (c, closed))
  clean_end (returned true) empty closed running (a, b, c) = absurd (cc (c, closed))
  clean_end (returned false) empty closed running (a, b, c, d) = absurd (cc (c, closed))
  clean_end sent empty closed running (a, b, c) = absurd (cc (c, closed))
  clean_end (done true) empty closed running (a, inl b, c) = absurd (cc (b, empty))
  clean_end (done true) empty closed running (a, inr b, c) = absurd (running b)
  clean_end (done false) empty closed running fits = refl

  pub at : (s : ServerAt) → p.server ≡ s → ServerFits p s
  at s e = subst (ServerFits p) e h.server

  pub main_at : (m : MainAt) → p.main ≡ m → MainFits p m
  main_at m e = subst (MainFits p) e h.main

pub Step-IsConsistent : {a : Actor} {p q : Process} → Step a p q → IsConsistent p → IsConsistent q
Step-IsConsistent (signal_arrives e) h =
    stepped-IsConsistent h (refl, refl, refl, refl) (λ c. c) (λ c. c) (signal-MainFits h true)
      h.closing
Step-IsConsistent (assign e) h =
    let (unset, empty, opened) = at h launched e in
    moved-IsConsistent h assigned true _ _ (λ c. cc) (λ c. refl) (refl, empty, opened)
Step-IsConsistent (listen e f) h =
    moved-IsConsistent h listening _ _ _ (λ c. cc) h.closing (at h assigned e)
Step-IsConsistent (refuse e f) h =
    let (set, empty, opened) = at h assigned e in
    moved-IsConsistent h (returned false) _ _ _ (λ c. cc) h.closing (set, empty, opened, f)
Step-IsConsistent (close_listener e f) h =
    let (set, empty, opened) = at h listening e in
    moved-IsConsistent h (returned false) _ _ _ (λ c. cc) h.closing (set, empty, opened, f)
Step-IsConsistent (bind_fails e) h =
    moved-IsConsistent h (returned true) _ _ _ (λ c. cc) h.closing (at h assigned e)
Step-IsConsistent (accept_fails e f) h =
    moved-IsConsistent h (returned true) _ _ _ (λ c. cc) h.closing (at h listening e)
Step-IsConsistent (send e) h =
    let (set, empty, opened) = at h (returned true) e in
    moved-IsConsistent h sent _ true _ (λ c. cc) h.closing (set, inl refl, opened)
Step-IsConsistent (close_failed e) h =
    let (set, given, opened) = at h sent e in
    moved-IsConsistent h (done true) _ _ true (λ c. cc) h.closing (set, given, refl)
Step-IsConsistent (close_clean e) h =
    let (set, empty, opened, c) = at h (returned false) e in
    moved-IsConsistent h (done false) _ _ true (λ c. refl) h.closing (set, empty, refl, c)
Step-IsConsistent (take_signal e f) h =
    stepped-IsConsistent h (refl, refl, refl, refl) (λ c. c) (λ c. cc) (main_at h selecting e)
      h.closing
Step-IsConsistent (select_error e f) h =
    received-IsConsistent h (refl, refl, refl) f refl tt h.closing
Step-IsConsistent (select_closed e f g) h =
    stepped-IsConsistent h (refl, refl, refl, refl) (λ c. c) (λ c. cc)
      (clean_end h _ f g (λ c. cc) h.server) h.closing
Step-IsConsistent (skip_shutdown e f) h =
    stepped-IsConsistent h (refl, refl, refl, refl) (λ c. c) (λ c. cc) tt h.closing
Step-IsConsistent (begin_shutdown e f) h =
    stepped-IsConsistent h (refl, refl, refl, refl) (λ c. refl) (λ c. cc) refl (λ c. f)
Step-IsConsistent (drained e) h =
    stepped-IsConsistent h (refl, refl, refl, refl) (λ c. c) (λ c. cc) tt h.closing
Step-IsConsistent (drain_fails e) h =
    stepped-IsConsistent h (refl, refl, refl, refl) (λ c. c) (λ c. refl) tt h.closing
Step-IsConsistent (await_error e f) h =
    received-IsConsistent h (refl, refl, refl) f refl tt h.closing
Step-IsConsistent (await_closed e f g) h =
    stepped-IsConsistent h (refl, refl, refl, refl) (λ c. c) (λ c. cc)
      (clean_end h _ f g (λ c. cc) h.server) h.closing

pub Reaches-IsConsistent : {p q : Process} → Reaches p q → IsConsistent p → IsConsistent q
Reaches-IsConsistent here h = h
Reaches-IsConsistent (onward r e) h = Step-IsConsistent e (Reaches-IsConsistent r h)

pub initial-IsConsistent : IsConsistent initial
initial-IsConsistent = record { server = (refl, refl, refl); main = refl; closing = λ c. cc }
