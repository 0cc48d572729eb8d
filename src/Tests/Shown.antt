-- ===== src/Tests/Shown.antt =====
-- A database that shows a message, its recipient, and a list of it.
use mathlib.Core.Option.{some-injective}
use web_mail.Base.{
  ◌≡◌, refl, sym, subst, inl, inr, some, List, [], ◌∷◌, Text, codes, ℤ, pos, text_eq, text_eq_iff,
  All, Bool-cases, if◌then◌else◌,
}
use web_mail.Api.Sql.{Cell, int, text, Sql}
use web_mail.Api.Statements.{message_of_recipient_sql, recipients_of_sql, list_of_recipient_sql}
use web_mail.Api.Privacy.Message.{Rows, ShowsMessages}
use web_mail.Api.Privacy.Listing.{ShowsLists, IsRowOf}
use web_mail.Tests.Api.{tables, ann_email, if_asked, only_ann}

-- The row of a message to Ann; it has no attachments.
abbrev message_cells : List Cell
message_cells =
    int (pos 7)
    ∷ text (codes "bob@mail.example")
    ∷ text (codes "hi")
    ∷ text (codes "2024-05-01")
    ∷ text (codes "2024-05-02")
    ∷ text (codes "Hello")
    ∷ text []
    ∷ text (codes "success")
    ∷ []

abbrev to_ann : List (List Cell)
to_ann = (text ann_email ∷ text (codes "to") ∷ []) ∷ []

abbrev pub message_answers : Sql
message_answers = record {
  query = λ sql args.
      if text_eq recipients_of_sql sql
      then some to_ann
      else if_asked message_of_recipient_sql sql args (message_cells ∷ []);
}

abbrev pub rows : Rows
rows = record {
  IsRow = λ id cells. cells ≡ message_cells;
  recipient_rows = λ id. to_ann;
  attachment_rows = λ id. [];
}

pub message_answers-ShowsMessages : ShowsMessages message_answers tables rows
unfolding text_eq
message_answers-ShowsMessages = record {
  message_admin = λ id cells rest e. absurd (cc e);
  message_user = λ id email cells rest e.
      let (mine, same) = only_ann email _ cells rest e in (cc (sym same), mine);
  recipients_of = λ id found e. some-injective _ _ (sym e);
  attachments_of = λ id found e. some-injective _ _ (sym e);
}

abbrev listed_cells : List Cell
listed_cells =
    int (pos 7)
    ∷ text (codes "bob@mail.example")
    ∷ text (codes "hi")
    ∷ text (codes "2024-05-01")
    ∷ text (codes "2024-05-02")
    ∷ text (codes "Hello")
    ∷ text []
    ∷ []

abbrev count_of_recipient_sql : Text
count_of_recipient_sql =
    codes
      "SELECT COUNT(DISTINCT m.id) FROM messages m WHERE EXISTS (SELECT 1 FROM message_recipients mr WHERE mr.message_id = m.id AND mr.recipient_email = ?)"

abbrev pub list_answers : Sql
list_answers = record {
  query = λ sql args.
      if text_eq count_of_recipient_sql sql
      then some ((int (pos 1) ∷ []) ∷ [])
      else if_asked list_of_recipient_sql sql args (listed_cells ∷ []);
}

abbrev pub IsListedRow : ℤ → List Cell → Type 0
IsListedRow id cells = cells ≡ listed_cells

no_rows-All :
    (P : ℤ → Type 0) (found : List (List Cell))
    → some [] ≡ some found
    → All (IsRowOf IsListedRow P) found
no_rows-All P found e = subst (All (IsRowOf IsListedRow P)) (some-injective _ _ e) tt

rows_of_ann-All :
    (email : Text) (found : List (List Cell))
    → (if text_eq email ann_email then some (listed_cells ∷ []) else some []) ≡ some found
    → All (IsRowOf IsListedRow (λ id. email ≡ ann_email)) found
rows_of_ann-All email found e = elim (Bool-cases (text_eq email ann_email)) [
  | inl same ↦
      subst (All (IsRowOf IsListedRow (λ id. email ≡ ann_email)))
        (some-injective _ _ (rw same at e))
        ((pos 7, refl, (text_eq_iff email ann_email).0 same), tt)
  | inr other ↦ no_rows-All _ found (rw other at e)
]

pub list_answers-ShowsLists : ShowsLists list_answers tables IsListedRow
unfolding text_eq
list_answers-ShowsLists = record {
  list_admin = λ limit offset found e. no_rows-All _ found e;
  search_admin = λ q limit offset found e. no_rows-All _ found e;
  list_user = λ email limit offset found e. rows_of_ann-All email found e;
  search_user = λ email q limit offset found e. no_rows-All _ found e;
}
