-- ===== src/Tests/Parser.antt =====
-- A message with a text and an attachment, for a library that reads it.
use web_mail.Base.{
  ◌≡◌, refl, Bool, true, none, some, ℕ, zero, suc, ◌%◌, length, List, [], ◌∷◌, ◌++◌, Text, codes,
  text_eq, if◌then◌else◌, is_empty, to_lower, trim_space, ltb, ◌&&◌, arith,
}
use web_mail.Ingest.Mime.{Header, Body, body, Parts, end, part, MediaType, opened, Library}
use web_mail.Ingest.Message.{to}
use web_mail.Ingest.Decoding.{decode_text}
use web_mail.Ingest.Parser.{hash_bytes, media_type_of, file_name, parse_mime}
use web_mail.Ingest.Utf8.{IsUtf8, IsLawful, decode_text-IsUtf8}

-- A header with one value for each name.
abbrev fields : List (Text × Text) → Header
fields [] name = []
fields ((n, v) ∷ rest) name = if text_eq n name then v ∷ [] else fields rest name

pub leaf : Text → Body
leaf t = body (record { bytes = t; broken = none }) (λ boundary. end none)

-- The headers of the parts, and the parts.
pub parts : Parts
unfolding leaf
parts = part (fields ((codes "Content-Type", codes "text/plain") ∷ [])) (leaf (codes "Hello")) (
    part
      (fields (
        (codes "Content-Type", codes "image/png")
        ∷ (codes "Content-Disposition", codes "attachment")
        ∷ []))
      (leaf (codes "PNG")) (end none))

-- A media type has no parameters, but for the boundary of what is multipart.
pub media_type : Text → MediaType
media_type t = record {
  media_type = t;
  params = λ key. if text_eq key (codes "boundary") then codes "b" else [];
  fails = is_empty t;
}

-- The bytes of ASCII only.
pub is_ascii : Text → Bool
is_ascii [] = true
is_ascii (c ∷ s) = ltb c 128 && is_ascii s

pub to_ascii : Text → Text
to_ascii [] = []
to_ascii (c ∷ s) = (if ltb c 128 then c else b'?') ∷ to_ascii s

-- A digest of 32 bytes, by the length of a text.
abbrev digest : Text → List ℕ
digest b = length b % 256 ∷ repeat 31
  where
    repeat : ℕ → List ℕ
    repeat zero = []
    repeat (suc n) = 0 ∷ repeat n

abbrev pub library : Library
library = record {
  table = λ c. c;
  bytes_of = λ s. s;
  string_of = λ b. b;
  sha256 = digest;
  read_message = λ raw.
      opened
        (fields (
          (codes "From", codes "bob@mail.example")
          ∷ (codes "To", codes " Ann@mail.example")
          ∷ (codes "Subject", codes "hi")
          ∷ (codes "Content-Type", codes "multipart/mixed")
          ∷ []))
        (body (record { bytes = raw; broken = none }) (λ boundary. parts));
  parse_address = λ s. some s;
  parse_list = λ s. some (s ∷ []);
  date = λ h. none;
  parse_media_type = media_type;
  decode_header = λ s. some s;
  quoted_printable = λ c. c;
  base64 = λ c. c;
  utf8_valid = is_ascii;
  to_valid_utf8 = to_ascii;
  charset = λ label. none;
  html2text = λ s. some s;
}

to_ascii-is_ascii : (s : Text) → is_ascii (to_ascii s) ≡ true
unfolding is_ascii to_ascii
to_ascii-is_ascii [] = refl
to_ascii-is_ascii (c ∷ s) = ground (arith, to_ascii-is_ascii s)

is_ascii-append : (s t : Text) → is_ascii s ≡ true → is_ascii t ≡ true → is_ascii (s ++ t) ≡ true
unfolding is_ascii
is_ascii-append [] t hs ht = ht
is_ascii-append (c ∷ s) t hs ht = ground (arith, is_ascii-append s t)

pub library-IsLawful : IsLawful library
unfolding is_ascii
library-IsLawful = record {
  back = λ b. refl;
  replaced = to_ascii-is_ascii;
  empty = refl;
  append = is_ascii-append;
}

decode_text-IsUtf8_example : IsUtf8 library (decode_text library (codes "caf") (codes "latin1"))
decode_text-IsUtf8_example =
    decode_text-IsUtf8 library library-IsLawful (codes "caf") (codes "latin1")

parse_test : (parse_mime library (codes "raw")).0 ≡ record {
  sender = codes "bob@mail.example";
  subject = codes "hi";
  message_date = none;
  recipients = record { email = codes "ann@mail.example"; kind = to } ∷ [];
  text_body = codes "Hello";
  html_body = [];
  attachments =
      record {
        content = codes "PNG";
        mime_type = codes "image/png";
        original_filename = [];
        size = 3;
        content_hash = hash_bytes library (codes "PNG");
      }
      ∷ [];
  content_hash = hash_bytes library (codes "raw");
}
unfolding parse_mime media_type_of to_lower media_type parts file_name trim_space is_ascii
parse_test = refl
