-- ===== src/Session/Laws.antt =====
-- The store against its specification, a history of writes by token.
use web_mail.Base.{
  ℕ, ◌<◌, ◌/◌, ◌%◌, ◌≡◌, refl, List, [], ◌∷◌, Option, none, some, arith, Text, text_eq, length, All,
  if◌then◌else◌, ◌*◌, ◌≢◌,
}
use web_mail.Base.Assoc.{get, get-put, get-remove}
use web_mail.Session.{
  Session, Store, new_store, token_for, hex_digit, hex_encode, create, find, delete,
}

-- No session has the empty token.
pub ne-nil_of_find : (u : Text) (session : Session) (s : Store) → find u s ≡ some session → u ≢ []
unfolding find
ne-nil_of_find [] session s e = λ _. cc
ne-nil_of_find (c ∷ u) session s e = λ p. cc

pub find-new_store : (u : Text) → find u new_store ≡ none
unfolding find get
find-new_store [] = refl
find-new_store (c ∷ u) = refl

pub find-delete :
    (t u : Text) (s : Store) → find u (delete t s) ≡ (if text_eq t u then none else find u s)
unfolding find delete
find-delete t u s = ground (arith, get-remove t u s.sessions)

-- A create that succeeds stores the session under its token, which is not empty if the random
-- source gave any byte, and changes nothing else.
pub record IsCreated (random : Option (List ℕ)) (session : Session) (s : Store) (named : Session)
    (s' : Store) : Type 0 where
  pub email : named.email ≡ session.email
  pub is_admin : named.is_admin ≡ session.is_admin
  pub expires_at : named.expires_at ≡ session.expires_at
  pub token : some named.token ≡ token_for random session
  pub stored :
      (u : Text) → u ≢ [] → find u s' ≡ (if text_eq named.token u then some named else find u s)

pub create-IsCreated :
    (random : Option (List ℕ)) (session : Session) (s : Store) (named : Session) (s' : Store)
    → create random session s ≡ some (named, s')
    → IsCreated random session s named s'
unfolding create find
create-IsCreated random session s named s' e = record {
  email = ground arith;
  is_admin = ground arith;
  expires_at = ground arith;
  token = ground arith;
  stored = λ u h. ground (arith, get-put named.token u named s.sessions);
}

hex_digit-injective : (a b : ℕ) → a < 16 → b < 16 → hex_digit a ≡ hex_digit b → a ≡ b
unfolding hex_digit
hex_digit-injective a b ha hb e = ground arith

abbrev pub AreBytes : List ℕ → Type 0
AreBytes = All (λ b. b < 256)

-- Two draws of random bytes that differ give tokens that differ.
pub hex_encode-injective :
    (a b : List ℕ) → AreBytes a → AreBytes b → hex_encode a ≡ hex_encode b → a ≡ b
unfolding hex_encode
hex_encode-injective [] [] ha hb e = refl
hex_encode-injective (x ∷ xs) [] ha hb e = cc
hex_encode-injective [] (y ∷ ys) ha hb e = cc
hex_encode-injective (x ∷ xs) (y ∷ ys) ha hb e = ground (
  arith,
  hex_digit-injective (x / 16) (y / 16),
  hex_digit-injective (x % 16) (y % 16),
  hex_encode-injective xs ys ha.1 hb.1,
)

pub length-hex_encode : (a : List ℕ) → length (hex_encode a) ≡ 2 * length a
unfolding hex_encode
length-hex_encode [] = refl
length-hex_encode (x ∷ xs) = omega (arith, length-hex_encode xs)
