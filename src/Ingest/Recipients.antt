-- ===== src/Ingest/Recipients.antt =====
-- The recipients that the headers of a message name.
use web_mail.Base.{
  ◌≡◌, refl, ap, not, Option, none, some, List, [], ◌∷◌, ◌++◌, map, Text, codes, is_empty, keep,
  to_lower, trim_space, Bool-cases, Option-cases, inl, inr,
}
use web_mail.Ingest.Message.{RecipientType, Recipient}
use web_mail.Ingest.Mime.{Header, Library}
use web_mail.Ingest.Decoding.{canonical_email}
use web_mail.Ingest.Parser.{recipients_of, recipients_in, parse_recipients}

module _ (lib : Library) where
  -- Each address without the space around it and in lower case, but those that are then empty.
  abbrev pub canonical_emails : List Text → List Text
  canonical_emails addresses =
      keep (λ email. not (is_empty email)) (map (λ a. to_lower lib.table (trim_space a)) addresses)

  abbrev pub readable : Option (List Text) → List Text
  readable none = []
  readable (some addresses) = addresses

  abbrev pub of_kind : RecipientType → Text → Recipient
  of_kind kind email = record { email = email; kind = kind }

  -- The recipients in the values of a header; a value that is no list of addresses has none.
  abbrev pub named_in : RecipientType → List Text → List Recipient
  named_in kind [] = []
  named_in kind (value ∷ values) =
      map (of_kind kind) (canonical_emails (readable (lib.parse_list value)))
      ++ named_in kind values

  -- Those of To, then those of Cc, then those of Bcc.
  abbrev pub named_recipients : Header → List Recipient
  named_recipients h =
      named_in RecipientType.to (h (codes "To"))
      ++ named_in RecipientType.cc_type (h (codes "Cc"))
      ++ named_in RecipientType.bcc (h (codes "Bcc"))

  recipients_of_lem :
      (kind : RecipientType) (addresses : List Text)
      → recipients_of lib kind addresses ≡ map (of_kind kind) (canonical_emails addresses)
  unfolding recipients_of canonical_email keep
  recipients_of_lem kind [] = refl
  recipients_of_lem kind (address ∷ addresses) =
      elim (Bool-cases (is_empty (to_lower lib.table (trim_space address)))) [
        | inl e ↦ rw e (recipients_of_lem kind addresses)
        | inr e ↦ rw e (
            ap (λ rs. of_kind kind (to_lower lib.table (trim_space address)) ∷ rs)
              (recipients_of_lem kind addresses))
      ]

  recipients_in_lem :
      (kind : RecipientType) (values : List Text)
      → recipients_in lib kind values ≡ named_in kind values
  unfolding recipients_in keep
  recipients_in_lem kind [] = refl
  recipients_in_lem kind (value ∷ values) = elim (Option-cases (lib.parse_list value)) [
    | inl e ↦ rw (recipients_in, e) (recipients_in_lem kind values)
    | inr (addresses, e) ↦
        rw (recipients_in, e, recipients_of_lem kind addresses, recipients_in_lem kind values) refl
  ]

  pub parse_recipients_lem :
      (h : Header) (name : Text) (kind : RecipientType)
      → parse_recipients lib h name kind ≡ named_in kind (h name)
  unfolding parse_recipients
  parse_recipients_lem h name kind = recipients_in_lem kind (h name)
