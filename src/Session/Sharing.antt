-- ===== src/Session/Sharing.antt =====
-- internal/auth/session.go with its pointers: the map holds addresses of sessions, and callers hold
-- others, through which they may write at any time. No caller passes a nil pointer.
use web_mail.Base.{
  ℕ, suc, ◌==◌, Bool, true, false, Option, none, some, List, [], ◌∷◌, Text, is_empty, pos, map,
  if◌then◌else◌,
}
use web_mail.Base.Assoc.{get, put, remove}
use web_mail.Session.{Session, Store, new_store, generate_token}
use web_mail.Session

-- The sessions in memory, at addresses below `next`.
pub record Memory : Type 0 where
  pub next : ℕ
  pub cell : ℕ → Session

-- `*p = x`
unfoldable pub assign : ℕ → Session → Memory → Memory
assign p x m = record m { cell = λ q. if q == p then x else m.cell q }

-- `&Session{…}`
unfoldable pub new_session : Session → Memory → ℕ × Memory
unfolding assign
new_session x m = (m.next, assign m.next x (record m { next = suc m.next }))

unfoldable pub clone_session : ℕ → Memory → ℕ × Memory
unfolding new_session
clone_session p m = new_session (m.cell p) m

pub record SharedStore : Type 0 where
  pub sessions : List (Text × ℕ)

-- What Create does to the caller's session.
unfoldable pub ensure_token : Option (List ℕ) → ℕ → Memory → Option Memory
unfolding assign
ensure_token random p m =
    if is_empty (m.cell p).token
    then elim (generate_token random) [
      | none ↦ none
      | some token ↦ some (assign p (record (m.cell p) { token = token }) m)
    ]
    else some m

unfoldable pub insert_clone : ℕ → Memory → SharedStore → Memory × SharedStore
unfolding clone_session
insert_clone p m s =
    let (q, m') = clone_session p m in (m', record { sessions = put (m.cell p).token q s.sessions })

-- `none` is an error of the random source.
unfoldable pub create_shared :
    Option (List ℕ) → ℕ → Memory → SharedStore → Option (Memory × SharedStore)
unfolding ensure_token insert_clone
create_shared random p m s = elim (ensure_token random p m) [
  | none ↦ none
  | some m' ↦ some (insert_clone p m' s)
]

-- `none` is ErrSessionNotFound.
unfoldable pub get_shared : Text → Memory → SharedStore → Option (ℕ × Memory)
unfolding clone_session
get_shared token m s =
    if is_empty token
    then none
    else elim (get token s.sessions) [ none ↦ none | some p ↦ some (clone_session p m) ]

unfoldable pub delete_shared : Text → SharedStore → SharedStore
delete_shared token s = record { sessions = remove token s.sessions }

-- The memory, the store, and which addresses callers hold.
pub record World : Type 0 where
  pub memory : Memory
  pub store : SharedStore
  pub held : ℕ → Bool

-- What callers do: make a session, write to one that they hold, and call the store.
pub data Event : Type 0 where
  makes : Session → Event
  writes : ℕ → Session → Event
  creates : Option (List ℕ) → ℕ → Event
  gets deletes : Text → Event

-- A call of the store with the value that it had.
pub data Call : Type 0 where
  created : Option (List ℕ) → Session → Call
  deleted : Text → Call

abbrev pub hold : ℕ → (ℕ → Bool) → ℕ → Bool
hold p held q = if q == p then true else held q

abbrev pub handed : World → ℕ × Memory → World
handed w (q, m) = record { memory = m; store = w.store; held = hold q w.held }

abbrev pub kept : World → Option (Memory × SharedStore) → World
kept w none = w
kept w (some (m, s)) = record w { memory = m; store = s }

abbrev pub taken : World → Option (ℕ × Memory) → World
taken w none = w
taken w (some r) = handed w r

-- One event, with the call of the store that it was, if it was one that can change the store.
unfoldable pub act : Event → World → World × Option Call
unfolding new_session assign create_shared get_shared delete_shared
act (makes x) w = (handed w (new_session x w.memory), none)
act (writes p x) w = (if w.held p then record w { memory = assign p x w.memory } else w, none)
act (creates random p) w =
    if w.held p
    then (kept w (create_shared random p w.memory w.store), some (created random (w.memory.cell p)))
    else (w, none)
act (gets token) w = (taken w (get_shared token w.memory w.store), none)
act (deletes token) w = (record w { store = delete_shared token w.store }, some (deleted token))

abbrev pub nobody : Session
nobody = record { email = []; is_admin = false; expires_at = pos 0; token = [] }

-- NewCookieSessionStore before any other use of memory.
abbrev pub empty_world : World
empty_world = record {
  memory = record { next = 0; cell = λ p. nobody };
  store = record { sessions = [] };
  held = λ p. false;
}

abbrev pub noted : Option Call → List Call → List Call
noted none calls = calls
noted (some c) calls = c ∷ calls

-- The world after events and the calls, with the last one first in both lists.
unfoldable pub run : List Event → World × List Call
unfolding act
run [] = (empty_world, [])
run (e ∷ events) = let (w, calls) = run events in let (w', made) = act e w in (w', noted made calls)

-- The store without pointers.
abbrev pub stored : Store → Option (Session × Store) → Store
stored s none = s
stored s (some (named, s')) = s'

abbrev pub perform : Call → Store → Store
perform (created random x) s = stored s (Session.create random x s)
perform (deleted token) s = Session.delete token s

unfoldable pub replay : List Call → Store
replay [] = new_store
replay (c ∷ calls) = perform c (replay calls)

-- The values that the map's pointers lead to.
unfoldable pub view : Memory → SharedStore → Store
view m s = record { sessions = map (λ (e : Text × ℕ). (e.0, m.cell e.1)) s.sessions }
