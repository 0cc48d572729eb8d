-- ===== src/Api/Filenames.antt =====
-- The file name in a Content-Disposition header.
use web_mail.Base.{ℕ, ◌≢◌}

-- No quote, no line break, no slash and no backslash.
abbrev pub IsQuotable : ℕ → Type 0
IsQuotable c = (c ≢ b'"') × (c ≢ 39) × (c ≢ 13) × (c ≢ 10) × (c ≢ b'/') × (c ≢ b'\\')
