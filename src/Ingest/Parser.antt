-- ===== src/Ingest/Parser.antt =====
-- internal/ingest/parser.go: ParseMIME, parseRecipients, parseEntity, parsePart and consumeLeaf.
use web_mail.Base.{
  ◌≡◌, refl, Bool, not, ◌&&◌, ◌||◌, Option, none, some, List, [], ◌∷◌, ◌++◌, Text, codes, is_empty,
  text_eq, has_prefix, length, if◌then◌else◌,
}
use web_mail.Session.{hex_encode}
use web_mail.Ingest.Message.{RecipientType, to, cc_type, bcc, Recipient, ParsedMessage}
use web_mail.Ingest.Mime.{
  Header, Content, Body, body, Parts, end, part, Opened, unreadable, opened, Library, header_value,
  content_of, either,
}
use web_mail.Ingest.Decoding.{
  lower, canonical_email, decode_text, decode_header_text, html_to_text, decode_content,
}

-- &ParsedMessage{}
abbrev pub empty_message : ParsedMessage
empty_message = record {
  sender = [];
  subject = [];
  message_date = none;
  recipients = [];
  text_body = [];
  html_body = [];
  attachments = [];
  content_hash = [];
}

module _ (lib : Library) where
  unfoldable pub hash_bytes : Text → Text
  unfolding hex_encode
  hash_bytes data_ = hex_encode (lib.sha256 data_)

  unfoldable pub recipients_of : RecipientType → List Text → List Recipient
  unfolding canonical_email
  recipients_of kind [] = []
  recipients_of kind (address ∷ addresses) =
      let email = canonical_email lib address in
      let rest = recipients_of kind addresses in
      if is_empty email then rest else record { email = email; kind = kind } ∷ rest

  unfoldable pub recipients_in : RecipientType → List Text → List Recipient
  unfolding recipients_of
  recipients_in kind [] = []
  recipients_in kind (value ∷ values) =
      let rest = recipients_in kind values in
      elim (lib.parse_list value) [
        | none ↦ rest
        | some addresses ↦ recipients_of kind addresses ++ rest
      ]

  unfoldable pub parse_recipients : Header → Text → RecipientType → List Recipient
  unfolding recipients_in
  parse_recipients h name kind = recipients_in kind (h name)

  -- The type that a header declares, or that of plain text.
  unfoldable pub media_type_of : Header → Text
  media_type_of h =
      let m = lib.parse_media_type (header_value (codes "Content-Type") h) in
      lower lib (if m.fails then codes "text/plain" else either m.media_type (codes "text/plain"))

  abbrev pub is_multipart : Header → Bool
  is_multipart h = has_prefix (media_type_of h) (codes "multipart/")

  abbrev pub param : Text → Text → Header → Text
  param name key h = (lib.parse_media_type (header_value name h)).params key

  unfoldable pub file_name : Header → Text
  unfolding decode_header_text
  file_name h = decode_header_text lib (
      either (param (codes "Content-Disposition") (codes "filename") h)
        (param (codes "Content-Type") (codes "name") h))

  unfoldable pub is_attachment : Header → Bool
  unfolding has_prefix
  is_attachment h =
      not (is_empty (file_name h))
      || has_prefix (lower lib (header_value (codes "Content-Disposition") h)) (codes "attachment")

  -- A leaf whose content was read.
  unfoldable pub add_leaf : Header → Text → Text → ParsedMessage → ParsedMessage
  unfolding is_attachment text_eq
  add_leaf h content media_type p =
      let text = decode_text lib content (param (codes "Content-Type") (codes "charset") h) in
      if is_attachment h
      then record p {
        attachments =
            p.attachments
            ++ record {
              content = content;
              mime_type = media_type;
              original_filename = file_name h;
              size = length content;
              content_hash = hash_bytes content;
            }
              ∷ [];
      }
      else if text_eq media_type (codes "text/plain")
      then record p { text_body = p.text_body ++ text }
      else if text_eq media_type (codes "text/html")
      then record p { html_body = p.html_body ++ text }
      else p

  unfoldable pub consume_read :
      Header → Text → Content → ParsedMessage → ParsedMessage × Option Text
  unfolding add_leaf
  consume_read h media_type c p = elim c.broken [
    | some e ↦ (p, some (codes "read MIME leaf: " ++ e))
    | none ↦ (add_leaf h c.bytes media_type p, none)
  ]

  unfoldable pub consume_leaf :
      Header → Content → Text → ParsedMessage → ParsedMessage × Option Text
  unfolding consume_read decode_content
  consume_leaf h c media_type p = consume_read h media_type (decode_content lib h c) p

  -- parseEntity, with its loop over the parts, each by parsePart, as parse_parts.
  unfoldable mutual
    unfolding consume_leaf

    pub parse_entity : Header → Body → ParsedMessage → ParsedMessage × Option Text
    parse_entity h (body c parts) p =
        let boundary = param (codes "Content-Type") (codes "boundary") h in
        let nested = parse_parts (parts boundary) p in
        if is_multipart h
        then (if is_empty boundary
            then (p, some (codes "multipart message missing boundary"))
            else nested)
        else consume_leaf h c (media_type_of h) p

    pub parse_parts : Parts → ParsedMessage → ParsedMessage × Option Text
    parse_parts (end none) p = (p, none)
    parse_parts (end (some e)) p = (p, some (codes "read MIME part: " ++ e))
    parse_parts (part h b rest) p =
        let nested = parse_entity h b p in
        let (p', failed) =
          if is_multipart h then nested else consume_leaf h (content_of b) (media_type_of h) p in
        elim failed [ some e ↦ (p', some e) | none ↦ parse_parts rest p' ]

  -- The call of the loop, which a function of the block above cannot be.
  unfoldable pub parse_part : Header → Body → ParsedMessage → ParsedMessage × Option Text
  unfolding parse_entity consume_leaf
  parse_part h b p =
      if is_multipart h
      then parse_entity h b p
      else consume_leaf h (content_of b) (media_type_of h) p

  parse_parts-part :
      (h : Header) (b : Body) (rest : Parts) (p : ParsedMessage)
      → parse_parts (part h b rest) p ≡ elim (parse_part h b p).1 [
        | some e ↦ ((parse_part h b p).0, some e)
        | none ↦ parse_parts rest (parse_part h b p).0
      ]
  unfolding parse_part parse_parts
  parse_parts-part h b rest p = refl

  unfoldable pub sender_of : Header → Text
  unfolding canonical_email decode_text
  sender_of h =
      let from = header_value (codes "From") h in
      if is_empty from then [] else elim (lib.parse_address from) [
        | none ↦ decode_text lib (lib.bytes_of from) []
        | some address ↦ canonical_email lib address
      ]

  unfoldable pub headers_of : Header → Text → ParsedMessage
  unfolding sender_of decode_header_text parse_recipients
  headers_of h hash = record {
    sender = sender_of h;
    subject = decode_header_text lib (header_value (codes "Subject") h);
    message_date = lib.date h;
    recipients =
        parse_recipients h (codes "To") to
        ++ parse_recipients h (codes "Cc") cc_type
        ++ parse_recipients h (codes "Bcc") bcc;
    text_body = [];
    html_body = [];
    attachments = [];
    content_hash = hash;
  }

  unfoldable pub fill_text : ParsedMessage → ParsedMessage
  unfolding html_to_text
  fill_text p =
      if is_empty p.text_body && not (is_empty p.html_body)
      then record p { text_body = html_to_text lib p.html_body }
      else p

  unfoldable pub filled : ParsedMessage × Option Text → ParsedMessage × Option Text
  unfolding fill_text
  filled (p, some e) = (p, some e)
  filled (p, none) = (fill_text p, none)

  -- ParseMIME behind mail.ReadMessage; what it returns with an error holds what was parsed so far.
  unfoldable pub parse_opened : Text → Opened → ParsedMessage × Option Text
  unfolding headers_of parse_entity filled
  parse_opened hash (unreadable e) =
      (record empty_message { content_hash = hash }, some (codes "read MIME message: " ++ e))
  parse_opened hash (opened h b) = filled (parse_entity h b (headers_of h hash))

  unfoldable pub parse_mime : Text → ParsedMessage × Option Text
  unfolding parse_opened
  parse_mime raw = parse_opened (hash_bytes raw) (lib.read_message raw)
