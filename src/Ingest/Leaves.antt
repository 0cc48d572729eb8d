-- ===== src/Ingest/Leaves.antt =====
-- The leaves of a message, and what of them is stored.
pub mod Parsing
use mathlib.Core.List.{append-nil, append_assoc}
use web_mail.Base.{
  ◌≡◌, refl, subst, sym, ap, ◌∙◌, not, ◌||◌, ◌&&◌, Bool, true, false, Option, none, some, List, [],
  ◌∷◌, ◌++◌, Text, codes, is_empty, text_eq, text_eq_iff, length, has_prefix, to_lower,
  if◌then◌else◌, Bool-cases, Option-cases, inl, inr,
}
use web_mail.Ingest.Message.{ParsedAttachment, ParsedMessage}
use web_mail.Ingest.Mime.{
  Header, Content, Body, body, Parts, end, part, Library, content_of, header_value,
}
use web_mail.Ingest.Decoding.{decode_content, decode_text}
use web_mail.Ingest.Parser.{
  hash_bytes, file_name, is_attachment, add_leaf, consume_read, consume_leaf, param, is_multipart,
  parse_entity, parse_parts, media_type_of,
}

-- What each item of a list gives, one behind the other.
abbrev pub gather : {A B : Type 0} → (A → List B) → List A → List B
gather f [] = []
gather f (x ∷ xs) = f x ++ gather f xs

gather-append :
    {A B : Type 0} (f : A → List B) (xs ys : List A)
    → gather f (xs ++ ys) ≡ gather f xs ++ gather f ys
gather-append f [] ys = refl
gather-append f (x ∷ xs) ys =
    ap (λ r. f x ++ r) (gather-append f xs ys)
    ∙ sym (append_assoc (f x) (gather f xs) (gather f ys))

-- A part that is not multipart: its headers, and its content without the transfer encoding.
pub record Leaf : Type 0 where
  pub header : Header
  pub content : Text

module _ (lib : Library) where
  abbrev pub leaf_of : Header → Content → Leaf
  leaf_of h c = record { header = h; content = (decode_content lib h c).bytes }

  -- The leaves of an entity, in order.
  abbrev mutual
    pub leaves : Header → Body → List Leaf
    leaves h (body c parts) =
        let nested = leaves_in (parts (param lib (codes "Content-Type") (codes "boundary") h)) in
        if is_multipart lib h then nested else leaf_of h c ∷ []

    pub leaves_in : Parts → List Leaf
    leaves_in (end e) = []
    leaves_in (part h b rest) =
        let nested = leaves h b in
        (if is_multipart lib h then nested else leaf_of h (content_of b) ∷ []) ++ leaves_in rest

  -- A leaf is an attachment if it has a file name or its disposition begins with "attachment".
  abbrev pub is_attached : Leaf → Bool
  is_attached l =
      not (is_empty (file_name lib l.header))
      || has_prefix (to_lower lib.table (header_value (codes "Content-Disposition") l.header))
          (codes "attachment")

  abbrev pub attachments_of : Leaf → List ParsedAttachment
  attachments_of l =
      if is_attached l
      then record {
        content = l.content;
        mime_type = media_type_of lib l.header;
        original_filename = file_name lib l.header;
        size = length l.content;
        content_hash = hash_bytes lib l.content;
      }
        ∷ []
      else []

  -- The text of a leaf of a type that is no attachment.
  abbrev pub text_of : Text → Leaf → Text
  text_of media_type l =
      if not (is_attached l) && text_eq (media_type_of lib l.header) media_type
      then decode_text lib l.content (param lib (codes "Content-Type") (codes "charset") l.header)
      else []

  -- What some leaves add to a message.
  pub record Adds (ls : List Leaf) (p p' : ParsedMessage) : Type 0 where
    pub attachments : p'.attachments ≡ p.attachments ++ gather attachments_of ls
    pub text : p'.text_body ≡ p.text_body ++ gather (text_of (codes "text/plain")) ls
    pub html : p'.html_body ≡ p.html_body ++ gather (text_of (codes "text/html")) ls

  pub Adds-none : (p : ParsedMessage) → Adds [] p p
  Adds-none p = record {
    attachments = sym (append-nil p.attachments);
    text = sym (append-nil p.text_body);
    html = sym (append-nil p.html_body);
  }

  chain :
      {B : Type 0} (f : Leaf → List B) (xs ys : List Leaf) (a b c : List B)
      → b ≡ a ++ gather f xs
      → c ≡ b ++ gather f ys
      → c ≡ a ++ gather f (xs ++ ys)
  chain f xs ys a b c e e' =
      e'
      ∙ ap (λ r. r ++ gather f ys) e
      ∙ append_assoc a (gather f xs) (gather f ys)
      ∙ ap (λ r. a ++ r) (sym (gather-append f xs ys))

  pub Adds-trans :
      (xs ys : List Leaf) (p q r : ParsedMessage) → Adds xs p q → Adds ys q r → Adds (xs ++ ys) p r
  Adds-trans xs ys p q r h k = record {
    attachments = chain _ xs ys _ _ _ h.attachments k.attachments;
    text = chain _ xs ys _ _ _ h.text k.text;
    html = chain _ xs ys _ _ _ h.html k.html;
  }

  abbrev stored_leaf : Leaf → ParsedMessage → ParsedMessage
  stored_leaf l p = add_leaf lib l.header l.content (media_type_of lib l.header) p

  text_eq-apart : (t a b : Text) → text_eq a b ≡ false → text_eq t a ≡ true → text_eq t b ≡ false
  text_eq-apart t a b apart e = rw ((text_eq_iff t a).0 e) apart

  html-apart : text_eq (codes "text/plain") (codes "text/html") ≡ false
  unfolding text_eq
  html-apart = refl

  pub add_leaf-Adds : (l : Leaf) (p : ParsedMessage) → Adds (l ∷ []) p (stored_leaf l p)
  unfolding add_leaf is_attachment
  add_leaf-Adds l p = elim (Bool-cases (is_attached l)) [
    | inl attached ↦ record {
      attachments = rw attached refl;
      text = rw attached (sym (append-nil p.text_body));
      html = rw attached (sym (append-nil p.html_body));
    }
    | inr inline ↦ elim (Bool-cases (text_eq (media_type_of lib l.header) (codes "text/plain"))) [
      | inl plain ↦
          let other =
            text_eq-apart (media_type_of lib l.header) (codes "text/plain") (codes "text/html")
              html-apart plain in
          record {
            attachments = rw (inline, plain) (sym (append-nil p.attachments));
            text = rw (inline, plain) (ap (λ r. p.text_body ++ r) (sym (append-nil _)));
            html = rw (inline, plain, other) (sym (append-nil p.html_body));
          }
      | inr other ↦ elim (Bool-cases (text_eq (media_type_of lib l.header) (codes "text/html"))) [
        | inl html ↦ record {
          attachments = rw (inline, other, html) (sym (append-nil p.attachments));
          text = rw (inline, other, html) (sym (append-nil p.text_body));
          html = rw (inline, other, html) (ap (λ r. p.html_body ++ r) (sym (append-nil _)));
        }
        | inr neither ↦ record {
          attachments = rw (inline, other, neither) (sym (append-nil p.attachments));
          text = rw (inline, other, neither) (sym (append-nil p.text_body));
          html = rw (inline, other, neither) (sym (append-nil p.html_body));
        }
      ]
    ]
  ]
