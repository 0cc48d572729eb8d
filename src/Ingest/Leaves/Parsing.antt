-- ===== src/Ingest/Leaves/Parsing.antt =====
-- What a parse without an error adds to a message.
use web_mail.Base.{
  ◌≡◌, refl, subst, ap, Bool, true, false, Option, none, some, List, [], ◌∷◌, ◌++◌, Text, codes,
  is_empty, if◌then◌else◌, Option-cases, inl, inr,
}
use web_mail.Ingest.Message.{ParsedMessage}
use web_mail.Ingest.Mime.{Header, Content, Body, body, Parts, end, part, Library, content_of}
use web_mail.Ingest.Decoding.{decode_content}
use web_mail.Ingest.Parser.{
  consume_read, consume_leaf, param, is_multipart, parse_entity, parse_parts, media_type_of,
}
use web_mail.Ingest.Leaves.{
  Leaf, leaf_of, leaves, leaves_in, Adds, Adds-none, Adds-trans, add_leaf-Adds,
}

module _ (lib : Library) where
  consume_read-Adds :
      (h : Header) (c : Content) (p p' : ParsedMessage)
      → consume_read lib h (media_type_of lib h) c p ≡ (p', none)
      → Adds lib (record { header = h; content = c.bytes } ∷ []) p p'
  unfolding consume_read
  consume_read-Adds h c p p' e = elim (Option-cases c.broken) [
    | inr (t, broken) ↦ absurd (cc (rw (consume_read, broken) at e))
    | inl whole ↦
        subst (Adds lib (record { header = h; content = c.bytes } ∷ []) p)
          (ap (λ (r : ParsedMessage × Option Text). r.0) (rw (consume_read, whole) at e))
          (add_leaf-Adds lib (record { header = h; content = c.bytes }) p)
  ]

  consume_leaf-Adds :
      (h : Header) (c : Content) (p p' : ParsedMessage)
      → consume_leaf lib h c (media_type_of lib h) p ≡ (p', none)
      → Adds lib (leaf_of lib h c ∷ []) p p'
  unfolding consume_leaf
  consume_leaf-Adds h c = consume_read-Adds h (decode_content lib h c)

  -- What the parser adds behind a choice by whether an entity is multipart.
  either-Adds :
      (test : Bool) (nested single : ParsedMessage × Option Text) (xs ys : List Leaf)
      (p p' : ParsedMessage)
      → (nested ≡ (p', none) → Adds lib xs p p')
      → (single ≡ (p', none) → Adds lib ys p p')
      → (if test then nested else single) ≡ (p', none)
      → Adds lib (if test then xs else ys) p p'
  either-Adds true nested single xs ys p p' f g e = f e
  either-Adds false nested single xs ys p p' f g e = g e

  bounded-Adds :
      (bare : Bool) (t : Text) (nested : ParsedMessage × Option Text) (xs : List Leaf)
      (p p' : ParsedMessage)
      → (nested ≡ (p', none) → Adds lib xs p p')
      → (if bare then (p, some t) else nested) ≡ (p', none)
      → Adds lib xs p p'
  bounded-Adds true t nested xs p p' f e = absurd (cc e)
  bounded-Adds false t nested xs p p' f e = f e

  next-Adds :
      (rest : Parts) (r : ParsedMessage × Option Text) (xs ys : List Leaf) (p p' : ParsedMessage)
      → ((q : ParsedMessage) → r ≡ (q, none) → Adds lib xs p q)
      → ((q : ParsedMessage) → parse_parts lib rest q ≡ (p', none) → Adds lib ys q p')
      → elim r.1 as (λ x. ParsedMessage × Option Text) [
        | some e ↦ (r.0, some e)
        | none ↦ parse_parts lib rest r.0
      ]
        ≡ (p', none)
      → Adds lib (xs ++ ys) p p'
  next-Adds rest (q, some t) xs ys p p' f g e = absurd (cc e)
  next-Adds rest (q, none) xs ys p p' f g e = Adds-trans lib xs ys p q p' (f q refl) (g q e)

  -- A parse without an error adds what all leaves add, in order.
  mutual
    unfolding parse_entity parse_parts

    pub parse_entity-Adds :
        (h : Header) (b : Body) (p p' : ParsedMessage)
        → parse_entity lib h b p ≡ (p', none)
        → Adds lib (leaves lib h b) p p'
    parse_entity-Adds h (body c parts) p p' e =
        let boundary = param lib (codes "Content-Type") (codes "boundary") h in
        either-Adds (is_multipart lib h) _ _ (leaves_in lib (parts boundary)) (leaf_of lib h c ∷ [])
          p p'
          (bounded-Adds (is_empty boundary) _ (parse_parts lib (parts boundary) p)
            (leaves_in lib (parts boundary)) p p' (parse_parts-Adds (parts boundary) p p'))
          (consume_leaf-Adds h c p p') e

    parse_parts-Adds :
        (parts : Parts) (p p' : ParsedMessage)
        → parse_parts lib parts p ≡ (p', none)
        → Adds lib (leaves_in lib parts) p p'
    parse_parts-Adds (end none) p p' e =
        subst (Adds lib [] p) (ap (λ (r : ParsedMessage × Option Text). r.0) e) (Adds-none lib p)
    parse_parts-Adds (end (some t)) p p' e = absurd (cc e)
    parse_parts-Adds (part h b rest) p p' e =
        next-Adds rest _ _ (leaves_in lib rest) p p'
          (λ q.
            either-Adds (is_multipart lib h) (parse_entity lib h b p)
              (consume_leaf lib h (content_of b) (media_type_of lib h) p) (leaves lib h b)
              (leaf_of lib h (content_of b) ∷ []) p q (parse_entity-Adds h b p q)
              (consume_leaf-Adds h (content_of b) p q))
          (λ q. parse_parts-Adds rest q p') e
