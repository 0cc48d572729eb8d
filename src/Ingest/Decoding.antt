-- ===== src/Ingest/Decoding.antt =====
-- internal/ingest/parser.go: decodeText, decodeHeaderText, decodeContent, htmlToText and
-- canonicalEmail.
use web_mail.Base.{
  Bool, ◌||◌, Option, none, some, [], Text, codes, is_empty, text_eq, trim_space, to_lower,
  if◌then◌else◌,
}
use web_mail.Ingest.Mime.{Header, Content, Library, header_value, either}

abbrev pub is_utf8_label : Text → Bool
is_utf8_label label =
    text_eq label (codes "utf-8")
    || text_eq label (codes "utf8")
    || text_eq label (codes "us-ascii")
    || text_eq label (codes "ascii")

module _ (lib : Library) where
  abbrev pub lower : Text → Text
  lower s = to_lower lib.table s

  unfoldable pub canonical_email : Text → Text
  canonical_email email = lower (trim_space email)

  -- The label as it is looked up.
  unfoldable pub normal_label : Text → Text
  normal_label label = either (lower (trim_space label)) (codes "utf-8")

  -- The reader for a label, or for windows-1252 if there is none.
  unfoldable pub reader_label : Text → Option (Text → Option Text)
  reader_label label = elim (lib.charset label) [
    | none ↦ lib.charset (codes "windows-1252")
    | some read ↦ some read
  ]

  unfoldable pub decode_with : Text → Option (Text → Option Text) → Text
  decode_with content none = lib.to_valid_utf8 (lib.string_of content)
  decode_with content (some read) = elim (read content) [
    | none ↦ lib.to_valid_utf8 (lib.string_of content)
    | some decoded ↦ lib.to_valid_utf8 (lib.string_of decoded)
  ]

  unfoldable pub decode_text : Text → Text → Text
  unfolding normal_label reader_label decode_with
  decode_text content charset_label =
      let label = normal_label charset_label in
      if is_utf8_label label
      then (if lib.utf8_valid content
          then lib.string_of content
          else decode_with content (reader_label (codes "windows-1252")))
      else decode_with content (reader_label label)

  unfoldable pub decode_header_text : Text → Text
  unfolding decode_text
  decode_header_text value =
      if is_empty value
      then []
      else decode_text
          (lib.bytes_of (elim (lib.decode_header value) [ none ↦ value | some decoded ↦ decoded ]))
          []

  unfoldable pub html_to_text : Text → Text
  html_to_text s = elim (lib.html2text s) [ none ↦ [] | some text ↦ text ]

  -- decodeContent, which returns no error.
  unfoldable pub decode_content : Header → Content → Content
  decode_content h c =
      let encoding = lower (header_value (codes "Content-Transfer-Encoding") h) in
      if text_eq encoding (codes "quoted-printable")
      then lib.quoted_printable c
      else if text_eq encoding (codes "base64")
      then lib.base64 c
      else c
