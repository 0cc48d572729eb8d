-- ===== src/Ingest/Parsed.antt =====
-- What ParseMIME returns.
use web_mail.Base.{
  ◌≡◌, refl, inl, inr, true, false, Option, none, some, [], ◌∷◌, Text, codes, is_empty, text_eq,
  length, All, All-append, Bool, if◌then◌else◌, Bool-cases, Option-cases,
}
use web_mail.Ingest.Message.{RecipientType, ParsedAttachment, ParsedMessage}
use web_mail.Ingest.Mime.{Header, Content, Body, body, Parts, end, part, Library, content_of}
use web_mail.Ingest.Decoding.{decode_content}
use web_mail.Ingest.Recipients.{named_recipients, parse_recipients_lem}
use web_mail.Ingest.Utf8.{IsUtf8, IsLawful, decode_text-IsUtf8, decode_header_text-IsUtf8}
use web_mail.Ingest.Parser.{
  hash_bytes, file_name, is_attachment, add_leaf, consume_read, consume_leaf, param, is_multipart,
  parse_entity, parse_parts, media_type_of, headers_of,
}

module _ (lib : Library) where
  pub record IsMeasured (a : ParsedAttachment) : Type 0 where
    pub size : a.size ≡ length a.content
    pub hash : a.content_hash ≡ hash_bytes lib a.content
    pub filename : IsUtf8 lib a.original_filename

  -- What holds at each step of the parser for a message with some headers and a hash.
  pub record IsSound (top : Header) (hash : Text) (p : ParsedMessage) : Type 0 where
    pub kept : p.content_hash ≡ hash
    pub addressed : p.recipients ≡ named_recipients lib top
    pub measured : All IsMeasured p.attachments
    pub subject : IsUtf8 lib p.subject
    pub text : IsUtf8 lib p.text_body
    pub html : IsUtf8 lib p.html_body

  module _ (laws : IsLawful lib) (top : Header) where
    file_name-IsUtf8 : (h : Header) → IsUtf8 lib (file_name lib h)
    unfolding file_name
    file_name-IsUtf8 h = decode_header_text-IsUtf8 lib laws _

    add_leaf-IsSound :
        (hash : Text) (h : Header) (content media_type : Text) (p : ParsedMessage)
        → IsSound top hash p
        → IsSound top hash (add_leaf lib h content media_type p)
    unfolding add_leaf
    add_leaf-IsSound hash h content media_type p s = elim (Bool-cases (is_attachment lib h)) [
      | inl attached ↦
          rw (add_leaf, attached)
            (record {
              kept = s.kept;
              addressed = s.addressed;
              measured =
                  All-append IsMeasured p.attachments (_ ∷ []) s.measured
                    (record { size = refl; hash = refl; filename = file_name-IsUtf8 h }, tt);
              subject = s.subject;
              text = s.text;
              html = s.html;
            })
      | inr inline ↦ elim (Bool-cases (text_eq media_type (codes "text/plain"))) [
        | inl plain ↦
            rw (add_leaf, inline, plain)
              (record {
                kept = s.kept;
                addressed = s.addressed;
                measured = s.measured;
                subject = s.subject;
                text = laws.append p.text_body _ s.text (decode_text-IsUtf8 lib laws content _);
                html = s.html;
              })
        | inr rich ↦ elim (Bool-cases (text_eq media_type (codes "text/html"))) [
          | inl html ↦
              rw (add_leaf, inline, rich, html)
                (record {
                  kept = s.kept;
                  addressed = s.addressed;
                  measured = s.measured;
                  subject = s.subject;
                  text = s.text;
                  html = laws.append p.html_body _ s.html (decode_text-IsUtf8 lib laws content _);
                })
          | inr other ↦ rw (add_leaf, inline, rich, other) s
        ]
      ]
    ]

    consume_read-IsSound :
        (hash : Text) (h : Header) (media_type : Text) (c : Content) (p : ParsedMessage)
        → IsSound top hash p
        → IsSound top hash (consume_read lib h media_type c p).0
    unfolding consume_read
    consume_read-IsSound hash h media_type c p s = elim (Option-cases c.broken) [
      | inl whole ↦ rw (consume_read, whole) (add_leaf-IsSound hash h c.bytes media_type p s)
      | inr (e, broken) ↦ rw (consume_read, broken) s
    ]

    consume_leaf-IsSound :
        (hash : Text) (h : Header) (c : Content) (media_type : Text) (p : ParsedMessage)
        → IsSound top hash p
        → IsSound top hash (consume_leaf lib h c media_type p).0
    unfolding consume_leaf
    consume_leaf-IsSound hash h c media_type p s =
        consume_read-IsSound hash h media_type (decode_content lib h c) p s

    if-IsSound :
        (hash : Text) (test : Bool) (r t : ParsedMessage × Option Text)
        → IsSound top hash r.0
        → IsSound top hash t.0
        → IsSound top hash (if test then r else t).0
    if-IsSound hash true r t hr ht = hr
    if-IsSound hash false r t hr ht = ht

    -- After one part, the loop ends or goes on.
    next-IsSound :
        (hash : Text) (rest : Parts) (r : ParsedMessage × Option Text)
        → IsSound top hash r.0
        → ((p : ParsedMessage) → IsSound top hash p → IsSound top hash (parse_parts lib rest p).0)
        → IsSound top hash
            (elim r.1 as (λ x. ParsedMessage × Option Text) [
              | some e ↦ (r.0, some e)
              | none ↦ parse_parts lib rest r.0
            ]).0
    next-IsSound hash rest (p, some e) s more = s
    next-IsSound hash rest (p, none) s more = more p s

    mutual
      unfolding parse_entity parse_parts

      pub parse_entity-IsSound :
          (hash : Text) (h : Header) (b : Body) (p : ParsedMessage)
          → IsSound top hash p
          → IsSound top hash (parse_entity lib h b p).0
      parse_entity-IsSound hash h (body c parts) p s =
          let boundary = param lib (codes "Content-Type") (codes "boundary") h in
          if-IsSound hash (is_multipart lib h) _ _
            (if-IsSound hash (is_empty boundary) (p, _) (parse_parts lib (parts boundary) p) s
              (parse_parts-IsSound hash (parts boundary) p s))
            (consume_leaf-IsSound hash h c (media_type_of lib h) p s)

      parse_parts-IsSound :
          (hash : Text) (parts : Parts) (p : ParsedMessage)
          → IsSound top hash p
          → IsSound top hash (parse_parts lib parts p).0
      parse_parts-IsSound hash (end none) p s = s
      parse_parts-IsSound hash (end (some e)) p s = s
      parse_parts-IsSound hash (part h b rest) p s =
          next-IsSound hash rest _
            (if-IsSound hash (is_multipart lib h) (parse_entity lib h b p)
              (consume_leaf lib h (content_of b) (media_type_of lib h) p)
              (parse_entity-IsSound hash h b p s)
              (consume_leaf-IsSound hash h (content_of b) (media_type_of lib h) p s))
            (λ p' s'. parse_parts-IsSound hash rest p' s')

  pub headers_of-IsSound :
      (laws : IsLawful lib) (h : Header) (hash : Text) → IsSound h hash (headers_of lib h hash)
  unfolding headers_of
  headers_of-IsSound laws h hash = record {
    kept = refl;
    addressed =
        rw
          (
            parse_recipients_lem lib h (codes "To") RecipientType.to,
            parse_recipients_lem lib h (codes "Cc") RecipientType.cc_type,
            parse_recipients_lem lib h (codes "Bcc") RecipientType.bcc,
          )
          refl;
    measured = tt;
    subject = decode_header_text-IsUtf8 lib laws _;
    text = laws.empty;
    html = laws.empty;
  }
