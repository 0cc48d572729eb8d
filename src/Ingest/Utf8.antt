-- ===== src/Ingest/Utf8.antt =====
-- What the decoders of parser.go give is valid UTF-8.
use web_mail.Base.{
  ◌≡◌, refl, true, false, Option, none, some, [], ◌++◌, Text, codes, is_empty, Bool, if◌then◌else◌,
  Option-cases, inl, inr,
}
use web_mail.Ingest.Mime.{Library}
use web_mail.Ingest.Decoding.{
  is_utf8_label, decode_with, decode_text, decode_header_text, reader_label, normal_label,
}

module _ (lib : Library) where
  -- A string whose bytes are valid UTF-8.
  abbrev pub IsUtf8 : Text → Type 0
  IsUtf8 s = lib.utf8_valid (lib.bytes_of s) ≡ true

  -- What the source relies on in the package utf8 and the conversions of strings.
  pub record IsLawful : Type 0 where
    pub back : (b : Text) → lib.bytes_of (lib.string_of b) ≡ b
    pub replaced : (s : Text) → IsUtf8 (lib.to_valid_utf8 s)
    pub empty : IsUtf8 []
    pub append : (s t : Text) → IsUtf8 s → IsUtf8 t → IsUtf8 (s ++ t)

  module _ (laws : IsLawful) where
    decode_with-IsUtf8 :
        (content : Text) (read : Option (Text → Option Text))
        → IsUtf8 (decode_with lib content read)
    unfolding decode_with
    decode_with-IsUtf8 content none = laws.replaced _
    decode_with-IsUtf8 content (some read) = elim (Option-cases (read content)) [
      | inl failed ↦ rw failed (laws.replaced _)
      | inr (decoded, done) ↦ rw done (laws.replaced _)
    ]

    if-IsUtf8 :
        (test : Bool) (s t : Text)
        → (test ≡ true → IsUtf8 s)
        → IsUtf8 t
        → IsUtf8 (if test then s else t)
    if-IsUtf8 true s t hs ht = hs refl
    if-IsUtf8 false s t hs ht = ht

    -- Whatever the bytes and the label are, a decoded text is valid UTF-8.
    pub decode_text-IsUtf8 : (content label : Text) → IsUtf8 (decode_text lib content label)
    unfolding decode_text
    decode_text-IsUtf8 content label =
        let windows = reader_label lib (codes "windows-1252") in
        let other = reader_label lib (normal_label lib label) in
        if-IsUtf8 (is_utf8_label (normal_label lib label))
          (if lib.utf8_valid content
            then lib.string_of content
            else decode_with lib content windows)
          (decode_with lib content other)
          (λ e.
            if-IsUtf8 (lib.utf8_valid content) (lib.string_of content)
              (decode_with lib content windows) (λ valid. rw (laws.back content) valid)
              (decode_with-IsUtf8 content windows))
          (decode_with-IsUtf8 content other)

    pub decode_header_text-IsUtf8 : (value : Text) → IsUtf8 (decode_header_text lib value)
    unfolding decode_header_text
    decode_header_text-IsUtf8 value =
        if-IsUtf8 (is_empty value) _ _ (λ e. laws.empty) (decode_text-IsUtf8 _ [])
