-- ===== src/Ingest/Mime.antt =====
-- internal/ingest/parser.go: what the program calls of net/mail, mime and the libraries for
-- charsets and HTML, as parameters. Strings are lists of code points, with numbers above those for
-- bytes that are no UTF-8, and contents are lists of bytes.
use web_mail.Base.{ℕ, Bool, Option, List, [], ◌∷◌, Text, ℤ}

-- The values of a header under its canonical names, in order.
abbrev pub Header : Type 0
Header = Text → List Text

-- What io.ReadAll gives: the bytes, and the text of the error that ended them.
pub record Content : Type 0 where
  pub bytes : Text
  pub broken : Option Text

-- A body, and what multipart.Reader finds in it for a boundary. Every part is shorter than the body
-- that it is in, so the parts of parts come to an end.
mutual
  pub data Body : Type 0 where
    body : Content → (Text → Parts) → Body

  pub data Parts : Type 0 where
    end : Option Text → Parts
    part : Header → Body → Parts → Parts

-- mime.ParseMediaType; some errors still come with a type, and then without parameters.
pub record MediaType : Type 0 where
  pub media_type : Text
  pub params : Text → Text
  pub fails : Bool

pub data Opened : Type 0 where
  unreadable : Text → Opened
  opened : Header → Body → Opened

pub record Library : Type 0 where
  -- Go's table of lower-case letters, and the conversions between []byte and string
  pub table : ℕ → ℕ
  pub bytes_of : Text → Text
  pub string_of : Text → Text
  pub sha256 : Text → List ℕ
  -- mail.ReadMessage, AddressParser.Parse and ParseList, Header.Date
  pub read_message : Text → Opened
  pub parse_address : Text → Option Text
  pub parse_list : Text → Option (List Text)
  pub date : Header → Option ℤ
  pub parse_media_type : Text → MediaType
  -- WordDecoder.DecodeHeader
  pub decode_header : Text → Option Text
  pub quoted_printable : Content → Content
  pub base64 : Content → Content
  pub utf8_valid : Text → Bool
  pub to_valid_utf8 : Text → Text
  -- charset.NewReaderLabel, and what reading gives
  pub charset : Text → Option (Text → Option Text)
  pub html2text : Text → Option Text

abbrev pub header_value : Text → Header → Text
header_value name h = elim (h name) [ [] ↦ [] | v ∷ vs ↦ v ]

abbrev pub content_of : Body → Content
content_of (body c parts) = c

abbrev pub either : Text → Text → Text
either [] t = t
either (c ∷ s) t = c ∷ s
