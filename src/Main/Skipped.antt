-- ===== src/Main/Skipped.antt =====
-- A signal that comes before Start has set s.http.
use web_mail.Base.{◌≢◌, ◌≡◌, refl, sym, ◌∙◌, false, ◌⊎◌, inl, inr}
use web_mail.Main.Shutdown.{
  MainAt, selecting, stopping, awaiting, exited, done, Process, initial, Actor, Step, take_signal,
  select_error, select_closed, skip_shutdown, begin_shutdown, drained, drain_fails, await_error,
  await_closed, Reaches, here, onward,
}
use web_mail.Main.Consistent.{
  IsConsistent, at, clean_end, Reaches-IsConsistent, initial-IsConsistent,
}

IsWaiting : MainAt → Type 0
IsWaiting m = (m ≡ awaiting) ⊎ (m ≡ exited 1)

Step-running :
    {a : Actor} {p q : Process}
    → Step a p q
    → IsWaiting p.main
    → p.closing ≡ false
    → q.closing ≡ false
unfolding IsWaiting
Step-running (begin_shutdown e f) (inl w) c = absurd (cc (e, w))
Step-running (begin_shutdown e f) (inr w) c = absurd (cc (e, w))
Step-running _ w c = c

elsewhere : {m : MainAt} (n : MainAt) → m ≡ n → n ≢ awaiting → n ≢ exited 1 → ¬ IsWaiting m
unfolding IsWaiting
elsewhere n e x y (inl w) = x (sym e ∙ w)
elsewhere n e x y (inr w) = y (sym e ∙ w)

Step-IsWaiting :
    {a : Actor} {p q : Process}
    → Step a p q
    → IsConsistent p
    → p.closing ≡ false
    → IsWaiting p.main
    → IsWaiting q.main
unfolding IsWaiting
Step-IsWaiting (take_signal e f) h c w = absurd (elsewhere selecting e (λ x. cc) (λ x. cc) w)
Step-IsWaiting (select_error e f) h c w = inr refl
Step-IsWaiting (select_closed e f g) h c w = absurd (elsewhere selecting e (λ x. cc) (λ x. cc) w)
Step-IsWaiting (skip_shutdown e f) h c w = inl refl
Step-IsWaiting (begin_shutdown e f) h c w = absurd (elsewhere stopping e (λ x. cc) (λ x. cc) w)
Step-IsWaiting (drained e) h c w = inl refl
Step-IsWaiting (drain_fails e) h c w = inr refl
Step-IsWaiting (await_error e f) h c w = inr refl
Step-IsWaiting {p = p} (await_closed e f g) h c w =
    let stopped = clean_end h p.server f g (λ x. cc) h.server in
    absurd (cc (c, (at h (done false) stopped).3))
Step-IsWaiting _ h c w = w

deaf :
    {p q : Process}
    → Reaches p q
    → IsConsistent p
    → p.closing ≡ false
    → IsWaiting p.main
    → (q.closing ≡ false) × IsWaiting q.main
deaf here h c w = (c, w)
deaf (onward r e) h c w =
    let (c', w') = deaf r h c w in
    (Step-running e w' c', Step-IsWaiting e (Reaches-IsConsistent r h) c' w')

-- When main has come to its last receive without a Shutdown of the http.Server, as Shutdown read
-- s.http before Start had set it, no later signal stops the server: it is never shut down, and main
-- stays there unless the server fails by itself, and then leaves with code 1.
pub skipped_shutdown :
    (p q : Process)
    → Reaches initial p
    → p.main ≡ awaiting
    → p.closing ≡ false
    → Reaches p q
    → (q.closing ≡ false) × ((q.main ≡ awaiting) ⊎ (q.main ≡ exited 1))
unfolding IsWaiting
skipped_shutdown p q r e c later =
    deaf later (Reaches-IsConsistent r initial-IsConsistent) c (inl e)
