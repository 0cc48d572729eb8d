-- ===== src/Middleware/RateLimit/Interleaving/Simulation.antt =====
-- The map and the heap of the limiter show a bucket for each client, in every interleaving.
use web_mail.Base.{
  ℕ, ◌-◌, ◌≤◌, ◌<◌, ◌^◌, ◌≢◌, ◌≡◌, refl, ap, sym, ◌∙◌, subst, true, Option, none, some, List, [],
  ◌∷◌, Text, text_eq, text_eq_iff, arith, if◌then◌else◌, Bool-cases, inl, inr,
}
use web_mail.Base.Assoc.{get, remove, get-put, get-remove}
use web_mail.Middleware.RateLimit.{Float64, Entry, stale, recovered, refill}
use web_mail.Middleware.RateLimit.Steps.{left_with}
use web_mail.Middleware.RateLimit.Forgetting.{IsGenerous, refill_new, refill-le_rate}
use web_mail.Middleware.RateLimit.Interleaving.{
  Call, Shared, write_at, loaded, begin_call, delete_at, delete_stale, found, end_call, Act, start,
  finish, expire,
}

module _ (fl : Float64) where
  -- The calls lock and the keys are deleted in the order of their instants, and when a call locks its
  -- entry, that entry is still the one in the map.
  unfoldable pub IsOrderly : ℕ → List Act → Shared → Type 0
  IsOrderly c [] s = Unit
  IsOrderly c (start id ip now ∷ acts) s = IsOrderly c acts (begin_call id ip now s)
  IsOrderly c (expire ip now ∷ acts) s = (c ≤ now) × IsOrderly now acts (delete_stale ip now s)
  IsOrderly c (finish id ∷ acts) s = elim (s.pending id) [
    | none ↦ IsOrderly c acts s
    | some k ↦
        (c ≤ k.now)
        × (get k.ip s.entries ≡ some k.address)
        × IsOrderly k.now acts (end_call fl id k s)
  ]

  -- From the clock `c` on an entry gives the tokens of a bucket.
  pub record IsSame (n c : ℕ) (e b : Entry) : Type 0 where
    pub same : (t : ℕ) → c ≤ t → refill fl n t e ≡ refill fl n t b
    pub bounded : (t : ℕ) → c ≤ t → refill fl n t b ≤ n

  abbrev pub Shows : ℕ → ℕ → (ℕ → Entry) → Option ℕ → Entry → Type 0
  Shows n c heap none b = (t : ℕ) → c ≤ t → refill fl n t b ≡ n
  Shows n c heap (some a) b = IsSame n c (heap a) b

  IsSame-later : (n c t : ℕ) (e b : Entry) → c ≤ t → IsSame n c e b → IsSame n t e b
  IsSame-later n c t e b later h = record {
    same = λ u after. h.same u (omega arith);
    bounded = λ u after. h.bounded u (omega arith);
  }

  IsSame-refl : (n c : ℕ) (e : Entry) → e.tokens ≤ n → IsSame n c e e
  IsSame-refl n c e h = record {
    same = λ t after. refl;
    bounded = λ t after. refill-le_rate fl n t e h;
  }

  stale-refill-ge :
      (n c t : ℕ) (e : Entry)
      → IsGenerous fl
      → n ≤ 2 ^ 32
      → stale c e ≡ true
      → c ≤ t
      → n ≤ refill fl n t e
  unfolding refill recovered stale
  stale-refill-ge n c t e h small gone later =
      ground (arith, h.restores n (t - e.last_update) small)

  pub record Simulates (n c : ℕ) (s : Shared) (buckets : Text → Entry) : Type 0 where
    pub rate : s.requests_per_minute ≡ n
    pub shows : (ip : Text) → Shows n c s.heap (get ip s.entries) (buckets ip)
    pub below : (ip : Text) (a : ℕ) → get ip s.entries ≡ some a → a < s.size
    pub apart : (i j : Text) (a : ℕ) → get i s.entries ≡ some a → get j s.entries ≡ some a → i ≡ j

  write_at-same : {A : Type 0} (a : ℕ) (x : A) (f : ℕ → A) → write_at a x f a ≡ x
  write_at-same a x f = ground arith

  write_at-other : {A : Type 0} (a b : ℕ) (x : A) (f : ℕ → A) → a ≢ b → write_at a x f b ≡ f b
  write_at-other a b x f h = ground (arith, h)

  Shows-moved :
      (n c : ℕ) (heap heap' : ℕ → Entry) (o : Option ℕ) (b : Entry)
      → ((a : ℕ) → o ≡ some a → heap' a ≡ heap a)
      → Shows n c heap o b
      → Shows n c heap' o b
  Shows-moved n c heap heap' none b kept h = h
  Shows-moved n c heap heap' (some a) b kept h = subst (λ e. IsSame n c e b) (sym (kept a refl)) h

  Shows-later :
      (n c t : ℕ) (heap : ℕ → Entry) (o : Option ℕ) (b : Entry)
      → c ≤ t
      → Shows n c heap o b
      → Shows n t heap o b
  Shows-later n c t heap none b later h = λ u after. h u (omega arith)
  Shows-later n c t heap (some a) b later h = IsSame-later n c t (heap a) b later h

  module _ (n c : ℕ) (s : Shared) (buckets : Text → Entry) (h : Simulates n c s buckets) where
    client-Shows :
        (ip : Text) (o : Option ℕ) → get ip s.entries ≡ o → Shows n c s.heap o (buckets ip)
    client-Shows ip o e = subst (λ x. Shows n c s.heap x (buckets ip)) e (h.shows ip)

    later-Simulates : (t : ℕ) → c ≤ t → Simulates n t s buckets
    later-Simulates t later = record {
      rate = h.rate;
      shows = λ ip. Shows-later n c t s.heap (get ip s.entries) (buckets ip) later (h.shows ip);
      below = h.below;
      apart = h.apart;
    }

    loaded-Shows :
        (id : ℕ) (ip : Text) (now : ℕ)
        → get ip s.entries ≡ none
        → (j : Text)
        → Shows n c
            (loaded id ip now none s).heap
            (get j (loaded id ip now none s).entries)
            (buckets j)
    loaded-Shows id ip now absent j = elim (Bool-cases (text_eq ip j)) [
      | inl own ↦
          let full = client-Shows ip none absent in
          rw (get-put, own, ← (text_eq_iff ip j).0 own, write_at-same, h.rate)
            (record {
              same = λ t after. refill_new fl n now t ∙ sym (full t after);
              bounded = λ t after. rw (full t after) (omega arith);
            })
      | inr other ↦
          rw (get-put, other)
            (Shows-moved n c s.heap _ (get j s.entries) (buckets j)
              (λ a e.
                write_at-other s.size a _ s.heap (λ same. absurd (omega (arith, h.below j a e))))
              (h.shows j))
    ]

    pub loaded-Simulates :
        (id : ℕ) (ip : Text) (now : ℕ) (o : Option ℕ)
        → get ip s.entries ≡ o
        → Simulates n c (loaded id ip now o s) buckets
    loaded-Simulates id ip now (some a) e = record {
      rate = h.rate;
      shows = h.shows;
      below = h.below;
      apart = h.apart;
    }
    loaded-Simulates id ip now none e = record {
      rate = h.rate;
      shows = loaded-Shows id ip now e;
      below = λ j a f. ground (arith, get-put ip j s.size s.entries, h.below j a);
      apart = λ i j a f g. ground (
        arith,
        get-put ip i s.size s.entries,
        get-put ip j s.size s.entries,
        h.below i a,
        h.below j a,
        h.apart i j a,
        text_eq_iff ip i,
        text_eq_iff ip j,
      );
    }

    deleted-Shows :
        (ip : Text) (now a : ℕ)
        → IsGenerous fl
        → n ≤ 2 ^ 32
        → c ≤ now
        → get ip s.entries ≡ some a
        → stale now (s.heap a) ≡ true
        → (j : Text) → Shows n now s.heap (get j (remove ip s.entries)) (buckets j)
    deleted-Shows ip now a generous small later here gone j = elim (Bool-cases (text_eq ip j)) [
      | inl own ↦
          let was = client-Shows ip (some a) here in
          rw (get-remove, own, ← (text_eq_iff ip j).0 own)
            (λ t after.
              let enough = stale-refill-ge n now t (s.heap a) generous small gone after in
              let same = was.same t (omega arith) in
              let bounded = was.bounded t (omega arith) in omega arith)
      | inr other ↦
          rw (get-remove, other)
            (Shows-later n c now s.heap (get j s.entries) (buckets j) later (h.shows j))
    ]

    pub delete_at-Simulates :
        (ip : Text) (now : ℕ) (o : Option ℕ)
        → IsGenerous fl
        → n ≤ 2 ^ 32
        → c ≤ now
        → get ip s.entries ≡ o
        → Simulates n now (delete_at ip now o s) buckets
    delete_at-Simulates ip now none generous small later e = later-Simulates now later
    delete_at-Simulates ip now (some a) generous small later e =
        elim (Bool-cases (stale now (s.heap a))) [
          | inr fresh ↦ rw fresh (later-Simulates now later)
          | inl gone ↦ rw gone (record {
            rate = h.rate;
            shows = deleted-Shows ip now a generous small later e gone;
            below = λ j b f. ground (arith, get-remove ip j s.entries, h.below j b);
            apart = λ i j b f g.
                ground (arith, get-remove ip i s.entries, get-remove ip j s.entries, h.apart i j b);
          })
        ]

    pub found-bucket :
        (k : Call)
        → c ≤ k.now
        → get k.ip s.entries ≡ some k.address
        → (found fl k s ≡ refill fl n k.now (buckets k.ip)) × (refill fl n k.now (buckets k.ip) ≤ n)
    found-bucket k later here =
        let was = client-Shows k.ip (some k.address) here in
        (rw h.rate (was.same k.now later), was.bounded k.now later)

    end_call-Shows :
        (id : ℕ) (k : Call)
        → c ≤ k.now
        → get k.ip s.entries ≡ some k.address
        → (j : Text)
        → Shows n k.now (end_call fl id k s).heap (get j s.entries) (
            if text_eq k.ip j
            then left_with fl (refill fl n k.now (buckets k.ip)) k.now
            else buckets j)
    end_call-Shows id k later here j =
        let (same, bounded) = found-bucket k later here in
        elim (Bool-cases (text_eq k.ip j)) [
          | inl own ↦
              rw (own, ← (text_eq_iff k.ip j).0 own, here, write_at-same, same)
                (IsSame-refl n k.now _ (omega arith))
          | inr other ↦ rw other (
              Shows-moved n k.now s.heap _ (get j s.entries) (buckets j)
                (λ a e. write_at-other k.address a _ s.heap (λ met.
                  let one = h.apart k.ip j a (here ∙ ap some met) e in
                  absurd (cc ((text_eq_iff k.ip j).1 one, other))))
                (Shows-later n c k.now s.heap (get j s.entries) (buckets j) later (h.shows j)))
        ]

    pub end_call-Simulates :
        (id : ℕ) (k : Call)
        → c ≤ k.now
        → get k.ip s.entries ≡ some k.address
        → Simulates n k.now (end_call fl id k s) (λ j.
          if text_eq k.ip j
          then left_with fl (refill fl n k.now (buckets k.ip)) k.now
          else buckets j)
    end_call-Simulates id k later here = record {
      rate = h.rate;
      shows = end_call-Shows id k later here;
      below = h.below;
      apart = h.apart;
    }
