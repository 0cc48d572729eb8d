-- ===== src/Tests/Api.antt =====
-- Requests for messages, against a database of one message.
use web_mail.Base.{
  sym, inl, inr, ◌&&◌, Bool-cases, text_eq_iff, if◌then◌else◌, ℕ, ◌≡◌, refl, ◌↔◌, ◌<◌, Bool, true,
  false, Option, none, some, List, [], ◌∷◌, Text, codes, ℤ, pos, arith, text_eq, ◌++◌, subst, ◌≤ℤ◌,
  ◌<ℤ◌, ◌-◌, ◌*◌, int64_half,
}
use mathlib.Core.Option.{some-injective}
use web_mail.Http.{Request}
use web_mail.Strconv.{format_nat, parse_int}
use web_mail.Storage.{FileSystem, file, save_raw_mime, save_attachment, validate_key, path_eq}
use web_mail.Api.Params.{
  sanitize_filename, is_unsafe, numeric_url_param, numeric_url_param_allow_zero, paging,
}
use web_mail.Api.Sql.{
  Cell, int, text, Sql, raw_for_admin, raw_for_user, attachment_for_admin, attachment_for_user,
  message_for_admin, message_for_user,
}
use web_mail.Api.Messages.{Deps, get_raw_mime}
use web_mail.Api.Attachments.{get_attachment}
use web_mail.Api.Identifiers.{numeric_url_param_iff}
use web_mail.Api.Statements.{raw_of_recipient_sql, attachment_of_recipient_sql}
use web_mail.Api.Privacy.{Tables, Answers}
use web_mail.Tests.{post, ann, disk, base}

abbrev seven : ℤ
seven = pos 7

numeric_url_param_iff_example :
    (numeric_url_param (codes "7") ≡ some seven)
    ↔ ((n : ℕ) × (seven ≡ pos n) × (0 < n) × (n < int64_half) × (codes "7" ≡ format_nat n))
numeric_url_param_iff_example = numeric_url_param_iff (codes "7") seven

abbrev pub ann_email : Text
ann_email = codes "ann@mail.example"

-- Whether the e-mail among the arguments is Ann's.
abbrev is_ann : List Cell → Bool
is_ann (int id ∷ text email ∷ rest) = text_eq email ann_email
is_ann (text email ∷ rest) = text_eq email ann_email
is_ann _ = false

-- One statement has rows, for Ann; every other one has no rows.
abbrev pub if_asked : Text → Text → List Cell → List (List Cell) → Option (List (List Cell))
if_asked expected asked args rows =
    if text_eq expected asked && is_ann args then some rows else some []

abbrev pub raw_answers : Sql
raw_answers = record {
  query = λ sql args. if_asked raw_of_recipient_sql sql args ((text (codes "c0ffee") ∷ []) ∷ []);
}

abbrev pub tables : Tables
tables = record {
  HasHash = λ id hash. hash ≡ codes "c0ffee";
  HasKey = λ id key. key ≡ codes "beef";
  IsRecipient = λ id email. email ≡ ann_email;
}

-- A row that was found is Ann's.
pub only_ann :
    (email : Text) (rows : List (List Cell)) (cells : List Cell) (rest : List (List Cell))
    → (if text_eq email ann_email then some rows else some []) ≡ some (cells ∷ rest)
    → (email ≡ ann_email) × (rows ≡ cells ∷ rest)
only_ann email rows cells rest e = elim (Bool-cases (text_eq email ann_email)) [
  | inl same ↦ ((text_eq_iff email ann_email).0 same, some-injective _ _ (rw same at e))
  | inr other ↦ absurd (cc (rw other at e))
]

pub raw_answers-Answers : Answers raw_answers tables
unfolding text_eq
raw_answers-Answers = record {
  raw_admin = λ id hash rest e. absurd (cc e);
  raw_user =
      λ id email hash rest e. let (mine, same) = only_ann email _ _ rest e in (cc (sym same), mine);
  attachment_admin = λ id idx size key name mime_type rest e. absurd (cc e);
  attachment_user = λ id idx size email key name mime_type rest e. absurd (cc e);
}

abbrev from_ann : Request
from_ann = record post { method = codes "GET"; session = some ann }

abbrev no_files : FileSystem
no_files p = none

abbrev raw_deps : Deps
raw_deps = record {
  db = raw_answers;
  disk = disk;
  base = base;
  fs = (save_raw_mime disk base (codes "c0ffee") (codes "Subject: hi") no_files).0;
}

api : Unit {0}
unfolding get_raw_mime get_attachment save_raw_mime save_attachment validate_key path_eq text_eq
    raw_for_user attachment_for_user numeric_url_param numeric_url_param_allow_zero
    web_mail.Strconv.format_int web_mail.Strconv.parse_int web_mail.Storage.read_raw_mime
    web_mail.Storage.read_attachment web_mail.Api.Sql.raw_message_auth_query
    web_mail.Api.Sql.attachment_auth_query web_mail.Api.Sql.query_row
    web_mail.Api.Params.sanitize_filename web_mail.Base.trim_space web_mail.Base.keep
api = tt

abbrev pub attachment_answers : Sql
attachment_answers = record {
  query = λ sql args. if_asked attachment_of_recipient_sql sql args (
      (text (codes "beef") ∷ text (codes "x.txt") ∷ text (codes "text/plain") ∷ int (pos 1) ∷ [])
      ∷ []);
}

pub attachment_answers-Answers : Answers attachment_answers tables
unfolding text_eq
attachment_answers-Answers = record {
  raw_admin = λ id hash rest e. absurd (cc e);
  raw_user = λ id email hash rest e. absurd (cc e);
  attachment_admin = λ id idx size key name mime_type rest e. absurd (cc e);
  attachment_user = λ id idx size email key name mime_type rest e.
      let (mine, same) = only_ann email _ _ rest e in (cc (sym same), mine);
}
