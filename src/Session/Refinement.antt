-- ===== src/Session/Refinement.antt =====
-- The store with its pointers refines the store of values: what callers do to the sessions that
-- they passed in or got out changes nothing in it.
use web_mail.Base.{
  ℕ, suc, ◌<◌, ◌==◌, ◌≡◌, refl, sym, ap, subst, ◌∙◌, true, false, Option, none, some, List, [], ◌∷◌,
  ◌⊎◌, Text, is_empty, arith, Bool-cases, Option-cases, inl, inr,
}
use web_mail.Base.Assoc.{get, put, remove}
use web_mail.Session.{Session, Store, generate_token, create, find, delete}
use web_mail.Session.Sharing.{
  Memory, assign, new_session, clone_session, SharedStore, ensure_token, insert_clone,
  create_shared, get_shared, delete_shared, World, Event, makes, writes, creates, gets, deletes,
  Call, created, deleted, stored, perform, noted, hold, handed, kept, taken, act, run, replay, view,
}
use web_mail.Session.Separation.{
  seen, seen-remove, get-seen, seen-Agree, Apart, IsSeparate, Apart-remove, Apart-new, Apart-Agree,
  new_session-cell, new_session-other, assign-cell, assign-other,
}

abbrev respond : Option Call → Store → Store
respond none s = s
respond (some c) s = perform c s

-- A step keeps the addresses apart, and changes what is seen of the map as its call does.
record IsFaithful (w : World) (x : World × Option Call) : Type 0 where
  separate : IsSeparate x.0
  same : view x.0.memory x.0.store ≡ respond x.1 (view w.memory w.store)

module _ (w : World) (sep : IsSeparate w) where
  handed-IsFaithful : (x : Session) → IsFaithful w (handed w (new_session x w.memory), none)
  unfolding view new_session assign
  handed-IsFaithful x = record {
    separate = record {
      apart =
          Apart-new w.memory.next w.held (hold w.memory.next w.held) w.store.sessions
            (λ p below free. ground arith) sep.apart;
      in_use = λ p h. in_hold p (Bool-cases (p == w.memory.next)) h;
    };
    same =
        ap (λ l. record { sessions = l })
          (seen-Agree w.memory.cell (new_session x w.memory).1.cell w.store.sessions (
            Apart-Agree w.memory.cell _ w.memory.next w.held w.store.sessions
              (λ q below free. new_session-other x w.memory q below) sep.apart));
  }
    where
      in_hold :
          (p : ℕ)
          → ((p == w.memory.next) ≡ true) ⊎ ((p == w.memory.next) ≡ false)
          → hold w.memory.next w.held p ≡ true
          → p < suc w.memory.next
      in_hold p (inl e) h = ground arith
      in_hold p (inr e) h = omega (arith, sep.in_use p (rw e at h))

  writes-IsFaithful :
      (p : ℕ) (x : Session)
      → w.held p ≡ true
      → IsFaithful w (record w { memory = assign p x w.memory }, none)
  unfolding view assign
  writes-IsFaithful p x h = record {
    separate = record { apart = sep.apart; in_use = sep.in_use };
    same =
        ap (λ l. record { sessions = l })
          (seen-Agree w.memory.cell (assign p x w.memory).cell w.store.sessions (
            Apart-Agree w.memory.cell _ w.memory.next w.held w.store.sessions
              (λ q below free. assign-other p q x w.memory w.held h free) sep.apart));
  }

  deletes-IsFaithful :
      (token : Text)
      → IsFaithful w (record w { store = delete_shared token w.store }, some (deleted token))
  unfolding view delete_shared delete
  deletes-IsFaithful token = record {
    separate = record {
      apart = Apart-remove w.memory.next w.held token w.store.sessions sep.apart;
      in_use = sep.in_use;
    };
    same = ap (λ l. record { sessions = l }) (seen-remove w.memory.cell token w.store.sessions);
  }

  -- A new address is held by no caller.
  next-free : w.held w.memory.next ≡ false
  next-free = elim (Bool-cases (w.held w.memory.next)) [
    | inr e ↦ e
    | inl e ↦ absurd (omega (arith, sep.in_use w.memory.next e))
  ]

  -- Create behind the session's token: the map gets a new address with what the session is.
  inserts-IsFaithful :
      (p : ℕ) (m : Memory) (random : Option (List ℕ))
      → m.next ≡ w.memory.next
      → ((q : ℕ) → q < w.memory.next → w.held q ≡ false → m.cell q ≡ w.memory.cell q)
      → create random (w.memory.cell p) (view w.memory w.store)
        ≡ some (
          m.cell p,
          record {
            sessions = put (m.cell p).token (m.cell p) (seen w.memory.cell w.store.sessions);
          },
        )
      → IsFaithful w
          (kept w (some (insert_clone p m w.store)), some (created random (w.memory.cell p)))
  unfolding view insert_clone clone_session put
  inserts-IsFaithful p m random next other made =
      let l = w.store.sessions in
      let token = (m.cell p).token in
      let after : ℕ → Session = (new_session (m.cell p) m).1.cell in
      let agree =
        Apart-Agree w.memory.cell after w.memory.next w.held l
          (λ q below free. new_session-other (m.cell p) m q (rw next below) ∙ other q below free)
          sep.apart in
      let gone = Apart-remove w.memory.next w.held token l sep.apart in
      record {
        separate = record {
          apart = (
            (omega arith, rw next next-free),
            subst (λ n. Apart (suc n) w.held (remove token l)) (sym next)
                (Apart-new w.memory.next w.held w.held (remove token l) (λ q below free. free)
                  gone),
          );
          in_use = λ q h. omega (arith, sep.in_use q h, next);
        };
        same =
            ap (λ rows. record { sessions = rows })
              (ap (λ y. (token, y) ∷ seen after (remove token l)) (new_session-cell (m.cell p) m)
                ∙ ap (λ rest. (token, m.cell p) ∷ rest)
                    (seen-remove after token l
                      ∙ ap (remove token) (seen-Agree w.memory.cell after l agree)))
            ∙ sym (ap (stored (view w.memory w.store)) made);
      }

  creates-IsFaithful :
      (random : Option (List ℕ)) (p : ℕ)
      → w.held p ≡ true
      → IsFaithful w (
        kept w (create_shared random p w.memory w.store),
        some (created random (w.memory.cell p)),
      )
  unfolding create_shared ensure_token create view
  creates-IsFaithful random p h = elim (Bool-cases (is_empty (w.memory.cell p).token)) [
    | inr named ↦
        rw (create_shared, ensure_token, named)
          (inserts-IsFaithful p w.memory random refl (λ q below free. refl)
            (rw (create, named) refl))
    | inl blank ↦ elim (Option-cases (generate_token random)) [
      | inl failed ↦
          rw (create_shared, ensure_token, blank, failed)
            (record { separate = sep; same = rw (create, blank, failed) refl })
      | inr (token, drawn) ↦
          let x = record (w.memory.cell p) { token = token } in
          let m = assign p x w.memory in
          rw (create_shared, ensure_token, blank, drawn)
            (inserts-IsFaithful p m random refl
              (λ q below free. assign-other p q x w.memory w.held h free)
              (rw (assign-cell p x w.memory, create, blank, drawn) refl))
    ]
  ]

  gets-IsFaithful :
      (token : Text) → IsFaithful w (taken w (get_shared token w.memory w.store), none)
  unfolding get_shared clone_session
  gets-IsFaithful token = elim (Bool-cases (is_empty token)) [
    | inl blank ↦ rw (get_shared, blank) unchanged
    | inr named ↦ elim (Option-cases (get token w.store.sessions)) [
      | inl absent ↦ rw (get_shared, named, absent) unchanged
      | inr (p, found) ↦ rw (get_shared, named, found) (handed-IsFaithful (w.memory.cell p))
    ]
  ]
    where
      unchanged : IsFaithful w (w, none)
      unchanged = record { separate = sep; same = refl }

  act-IsFaithful : (e : Event) → IsFaithful w (act e w)
  unfolding act
  act-IsFaithful (makes x) = handed-IsFaithful x
  act-IsFaithful (writes p x) = elim (Bool-cases (w.held p)) [
    | inl h ↦ rw (act, h) (writes-IsFaithful p x h)
    | inr h ↦ rw (act, h) (record { separate = sep; same = refl })
  ]
  act-IsFaithful (creates random p) = elim (Bool-cases (w.held p)) [
    | inl h ↦ rw (act, h) (creates-IsFaithful random p h)
    | inr h ↦ rw (act, h) (record { separate = sep; same = refl })
  ]
  act-IsFaithful (gets token) = gets-IsFaithful token
  act-IsFaithful (deletes token) = deletes-IsFaithful token

replay-noted :
    (made : Option Call) (calls : List Call)
    → replay (noted made calls) ≡ respond made (replay calls)
unfolding replay
replay-noted none calls = refl
replay-noted (some c) calls = refl

run-IsSeparate : (events : List Event) → IsSeparate (run events).0
unfolding run
run-IsSeparate [] = record { apart = tt; in_use = λ p h. absurd (cc h) }
run-IsSeparate (e ∷ events) = (act-IsFaithful (run events).0 (run-IsSeparate events) e).separate

run-view :
    (events : List Event) → view (run events).0.memory (run events).0.store ≡ replay (run events).1
unfolding run replay view
run-view [] = refl
run-view (e ∷ events) =
    let (w, calls) = run events in
    (act-IsFaithful w (run-IsSeparate events) e).same
    ∙ ap (respond (act e w).1) (run-view events)
    ∙ sym (replay-noted (act e w).1 calls)

-- The session that a caller gets, as a value.
abbrev pub read : Option (ℕ × Memory) → Option Session
read none = none
read (some (p, m)) = some (m.cell p)

get_shared-view :
    (token : Text) (m : Memory) (s : SharedStore)
    → read (get_shared token m s) ≡ find token (view m s)
unfolding get_shared clone_session find view
get_shared-view token m s = elim (Bool-cases (is_empty token)) [
  | inl blank ↦ rw (get_shared, find, blank) refl
  | inr named ↦ elim (Option-cases (get token s.sessions)) [
    | inl absent ↦
        rw (get_shared, find, named, absent, get-seen m.cell token s.sessions, absent) refl
    | inr (p, found) ↦
        rw (get_shared, find, named, found, get-seen m.cell token s.sessions, found)
          (ap some (new_session-cell (m.cell p) m))
  ]
]

-- After any sequence of calls of the store and of writes of callers to the sessions that they made
-- or got from it, Get answers as a store of values does after the calls of Create, with the values
-- that the sessions had at these calls, and of Delete.
pub get_shared-replay :
    (events : List Event) (token : Text)
    → read (get_shared token (run events).0.memory (run events).0.store)
      ≡ find token (replay (run events).1)
get_shared-replay events token =
    get_shared-view token (run events).0.memory (run events).0.store
    ∙ ap (find token) (run-view events)
