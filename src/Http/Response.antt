-- ===== src/Http/Response.antt =====
-- How handlers make a response: by steps on the writer, of which the header is sent once.
use text.Mathlib.Text.{◌==◌}
use web_mail.Base.{
  ℕ, String, ◌≡◌, refl, Bool, true, false, not, ◌&&◌, ◌||◌, Option, none, some, List, [], ◌∷◌, Text,
  text_eq, text_eq_iff, arith, if◌then◌else◌,
}
use web_mail.Http.{
  Writer, Head, Cookie, Body, pass, Request, Outcome, header_get, set_header, set_cookie,
  write_header, write, head_of, recorded_status,
}

-- Headers that a response must keep, with their values.
abbrev pub Kept : Type 0
Kept = List (String × Text)

-- Whether a header can be set without a change of those.
abbrev pub spares : String → Text → Kept → Bool
spares name value [] = true
spares name value ((k, v) ∷ ks) = (not (name == k) || text_eq value v) && spares name value ks

-- The steps of a handler from one writer to another.
pub data Responds (ks : Kept) (w : Writer) : Writer → Type 0 where
  here : Responds ks w w
  header :
      {v : Writer} (name : String) (value : Text)
      → spares name value ks ≡ true
      → Responds ks w v
      → Responds ks w (set_header name value v)
  with_cookie : {v : Writer} (c : Cookie) → Responds ks w v → Responds ks w (set_cookie c v)
  -- WriteHeader is called once at most, and before every Write
  set_status :
      {v : Writer} (n : ℕ) → v.sent ≡ none → Responds ks w v → Responds ks w (write_header n v)
  content : {v : Writer} (b : Body) → Responds ks w v → Responds ks w (write b v)

pub trans : {ks : Kept} {w v u : Writer} → Responds ks w v → Responds ks v u → Responds ks w u
trans p here = p
trans p (header name value safe q) = header name value safe (trans p q)
trans p (with_cookie c q) = with_cookie c (trans p q)
trans p (set_status n fresh q) = set_status n fresh (trans p q)
trans p (content b q) = content b (trans p q)

-- All headers have their values.
abbrev pub HasAll : Kept → List (String × Text) → Type 0
HasAll [] headers = Unit
HasAll ((k, v) ∷ ks) headers = (header_get k headers ≡ v) × HasAll ks headers

abbrev pub HasSent : Kept → Option Head → Type 0
HasSent ks none = Unit
HasSent ks (some h) = HasAll ks h.headers

-- So do they in what was sent.
abbrev pub IsFramed : Kept → Writer → Type 0
IsFramed ks w = HasAll ks w.headers × HasSent ks w.sent

HasAll-cons :
    (ks : Kept) (name : String) (value : Text) (headers : List (String × Text))
    → spares name value ks ≡ true
    → HasAll ks headers
    → HasAll ks ((name, value) ∷ headers)
unfolding header_get
HasAll-cons [] name value headers safe h = tt
HasAll-cons ((k, v) ∷ ks) name value headers safe h =
    (ground (arith, text_eq_iff value v), HasAll-cons ks name value headers (ground arith) h.1)

HasSent-head_of :
    (ks : Kept) (v : Writer) (o : Option Head)
    → HasAll ks v.headers
    → HasSent ks o
    → HasSent ks (head_of 200 v o)
HasSent-head_of ks v none kept sent = kept
HasSent-head_of ks v (some h) kept sent = sent

-- No handler takes a header away that it may not set.
pub Responds-IsFramed : {ks : Kept} {w v : Writer} → Responds ks w v → IsFramed ks w → IsFramed ks v
Responds-IsFramed here h = h
Responds-IsFramed (header name value safe p) h =
    let (kept, sent) = Responds-IsFramed p h in (HasAll-cons _ name value _ safe kept, sent)
Responds-IsFramed (with_cookie c p) h = Responds-IsFramed p h
Responds-IsFramed (set_status n fresh p) h =
    let (kept, sent) = Responds-IsFramed p h in (kept, rw fresh kept)
Responds-IsFramed (content {v} b p) h =
    let (kept, sent) = Responds-IsFramed p h in (kept, HasSent-head_of _ v v.sent kept sent)

abbrev pub Agrees : Option Head → Option ℕ → Type 0
Agrees none called = called ≡ none
Agrees (some h) called = h.status ≡ recorded_status called

-- The status that was sent is the recorded one.
abbrev pub IsRecorded : Writer → Type 0
IsRecorded w = Agrees w.sent w.called

Agrees-write :
    (v : Writer) (o : Option Head) (called : Option ℕ)
    → Agrees o called
    → Agrees (head_of 200 v o) called
Agrees-write v none called h = rw h refl
Agrees-write v (some head) called h = h

pub Responds-IsRecorded : {ks : Kept} {w v : Writer} → Responds ks w v → IsRecorded w → IsRecorded v
Responds-IsRecorded here h = h
Responds-IsRecorded (header name value safe p) h = Responds-IsRecorded p h
Responds-IsRecorded (with_cookie c p) h = Responds-IsRecorded p h
Responds-IsRecorded (set_status n fresh p) h = rw fresh refl
Responds-IsRecorded (content {v} b p) h = Agrees-write v v.sent v.called (Responds-IsRecorded p h)

-- What a middleware may do: it makes a response, and passes on a request only with no status sent.
pub record IsPolite (ks : Kept) {S : Type 0} (w : Writer) (o : Outcome S) : Type 0 where
  pub responds : Responds ks w o.writer
  pub unsent : (r : Request) → o.verdict ≡ pass r → o.writer.sent ≡ none

module _ {ks : Kept} {w : Writer} where
  pub if-Responds :
      {S : Type 0} (test : Bool) (x y : S × Writer)
      → Responds ks w x.1
      → Responds ks w y.1
      → Responds ks w (if test then x else y).1
  if-Responds true x y hx hy = hx
  if-Responds false x y hx hy = hy

  pub if-IsPolite :
      {S : Type 0} (test : Bool) (x y : Outcome S)
      → IsPolite ks w x
      → IsPolite ks w y
      → IsPolite ks w (if test then x else y)
  if-IsPolite true x y hx hy = hx
  if-IsPolite false x y hx hy = hy
