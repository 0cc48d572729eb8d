-- ===== src/Ingest/Fallback.antt =====
-- internal/ingest/handler.go: fallbackParsedMessageWithError and readFallbackBody, and the parser
-- as the handler calls it.
use web_mail.Base.{
  not, ◌&&◌, Option, none, some, [], ◌++◌, Text, codes, is_empty, text_eq, has_prefix, ℤ,
  if◌then◌else◌,
}
use web_mail.Ingest.Message.{ParsedMessage}
use web_mail.Ingest.Mime.{
  Header, Body, body, Parts, end, part, Opened, unreadable, opened, Library, header_value,
}
use web_mail.Ingest.Decoding.{
  lower, canonical_email, decode_text, decode_header_text, decode_content,
}
use web_mail.Ingest.Parser.{empty_message, hash_bytes, parse_mime}
use web_mail.Ingest.Handler.{Parsing}

abbrev pub error_body : Text → Text
error_body e = codes "[Parse Error: " ++ e ++ codes "]"

module _ (lib : Library) where
  -- readFallbackBody: what was read before an error is kept.
  unfoldable pub read_fallback_body : Header → Body → Text
  unfolding decode_content
  read_fallback_body h (body c parts) = (decode_content lib h c).bytes

  -- The text of an HTML body, if there is one.
  unfoldable pub html_of : Header → Body → Option Text
  unfolding read_fallback_body decode_text
  html_of h b =
      let content = read_fallback_body h b in
      let m = lib.parse_media_type (header_value (codes "Content-Type") h) in
      if is_empty content then none else some (decode_text lib content (m.params (codes "charset")))

  -- The loop over the parts, which ends with the first one that is HTML and not empty.
  unfoldable pub first_html : Parts → Option Text
  unfolding html_of text_eq
  first_html (end e) = none
  first_html (part h b rest) =
      let m = lib.parse_media_type (header_value (codes "Content-Type") h) in
      let later = first_html rest in
      if text_eq (lower lib m.media_type) (codes "text/html")
      then elim (html_of h b) [ some html ↦ some html | none ↦ later ]
      else later

  unfoldable pub fallback_html : Header → Body → Option Text
  unfolding first_html has_prefix
  fallback_html h (body c parts) =
      let m = lib.parse_media_type (header_value (codes "Content-Type") h) in
      let boundary = m.params (codes "boundary") in
      if not m.fails && has_prefix (lower lib m.media_type) (codes "multipart/")
      then (if is_empty boundary then none else first_html (parts boundary))
      else if has_prefix (lower lib m.media_type) (codes "text/html")
      then html_of h (body c parts)
      else none

  unfoldable pub fallback_sender : Header → Text
  unfolding canonical_email
  fallback_sender h =
      let from = header_value (codes "From") h in
      if is_empty from
      then []
      else elim (lib.parse_address from) [ none ↦ [] | some address ↦ canonical_email lib address ]

  unfoldable pub fallback_opened : ParsedMessage → Opened → ParsedMessage
  unfolding fallback_html fallback_sender decode_header_text
  fallback_opened p (unreadable e) = p
  fallback_opened p (opened h b) = record p {
    sender = fallback_sender h;
    subject = decode_header_text lib (header_value (codes "Subject") h);
    html_body = elim (fallback_html h b) [ none ↦ [] | some html ↦ html ];
  }

  unfoldable pub fallback_parsed_message : ℤ → Text → Text → Text → ParsedMessage
  unfolding fallback_opened
  fallback_parsed_message now raw hash e =
      fallback_opened
        (record empty_message {
          content_hash = hash;
          message_date = some now;
          text_body = error_body e;
        })
        (lib.read_message raw)

  unfoldable pub parsing : ℤ → Parsing
  parsing now = record {
    hash = hash_bytes lib;
    parse = parse_mime lib;
    fallback = fallback_parsed_message now;
  }
