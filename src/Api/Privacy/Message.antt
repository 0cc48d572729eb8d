-- ===== src/Api/Privacy/Message.antt =====
-- To whom a message is shown.
use web_mail.Base.{
  subst, ◌≡◌, refl, inl, inr, Option, none, some, List, [], ◌∷◌, ◌++◌, Text, String, ℤ, arith,
  Bool-cases,
}
use web_mail.Session.{Session}
use web_mail.Http.{Request, Writer, json_with, status_of, http_error}
use web_mail.Api.Params.{numeric_url_param}
use web_mail.Api.Sql.{
  Cell, int, text, Sql, Row, row, no_rows, failed, query_row, message_for_admin, message_for_user,
  message_auth_query,
}
use web_mail.Api.Statements.{
  message_sql, message_of_recipient_sql, recipients_of_sql, attachments_of_sql,
}
use web_mail.Api.Messages.{
  all_named, in_order, Deps, Found, message, absent, error, message_columns, named, with_parts,
  message_of_row, get_message_of, send_message, message_for_session, message_for_id, get_message,
  recipients, attachments,
}
use web_mail.Api.Privacy.Objects.{
  Fields, IsObject, AreObjects, named-IsObject, all_named-AreObjects,
}
use web_mail.Api.Privacy.{Tables, MayRead, first_row-row}

-- The rows of the messages, and those of the recipients and attachments of each message in the order
-- of their ids.
pub record Rows : Type 1 where
  pub IsRow : ℤ → List Cell → Type 0
  pub recipient_rows : ℤ → List (List Cell)
  pub attachment_rows : ℤ → List (List Cell)

-- What SQL says of the rows of the four statements.
pub record ShowsMessages (db : Sql) (t : Tables) (c : Rows) : Type 0 where
  pub message_admin :
      (id : ℤ) (cells : List Cell) (rest : List (List Cell))
      → db.query message_sql (int id ∷ []) ≡ some (cells ∷ rest)
      → c.IsRow id cells
  pub message_user :
      (id : ℤ) (email : Text) (cells : List Cell) (rest : List (List Cell))
      → db.query message_of_recipient_sql (int id ∷ text email ∷ []) ≡ some (cells ∷ rest)
      → c.IsRow id cells × t.IsRecipient id email
  pub recipients_of :
      (id : ℤ) (rows : List (List Cell))
      → db.query recipients_of_sql (int id ∷ []) ≡ some rows
      → rows ≡ c.recipient_rows id
  pub attachments_of :
      (id : ℤ) (rows : List (List Cell))
      → db.query attachments_of_sql (int id ∷ []) ≡ some rows
      → rows ≡ c.attachment_rows id

-- The JSON names of the columns.
abbrev pub message_names : List String
message_names =
    "id" ∷ "sender" ∷ "subject" ∷ "message_date" ∷ "received_at" ∷ "text_body" ∷ "html_body"
    ∷ "parser_status" ∷ []

abbrev pub recipient_names : List String
recipient_names = "email" ∷ "type" ∷ []

abbrev pub attachment_names : List String
attachment_names = "id" ∷ "original_filename" ∷ "mime_type" ∷ "size_bytes" ∷ []

pub in_order-some :
    (names : List String) (o : Option (List (List Cell))) (listed : List Fields)
    → in_order names o ≡ some listed
    → (rows : List (List Cell)) × (o ≡ some rows) × (all_named names rows ≡ some listed)
in_order-some names none listed e = cc
in_order-some names (some rows) listed e = (rows, refl, e)

module _ (deps : Deps) (w : Writer) (fresh : w.sent ≡ none) (t : Tables) (c : Rows)
    (answers : ShowsMessages deps.db t c) where
  recipients-rows :
      (id : ℤ) (rs : List Fields)
      → recipients deps id ≡ some rs
      → AreObjects recipient_names (c.recipient_rows id) rs
  unfolding recipients
  recipients-rows id rs e =
      let (rows, found, shown) = in_order-some recipient_names _ rs e in
      subst (λ x. AreObjects recipient_names x rs) (answers.recipients_of id rows found)
        (all_named-AreObjects recipient_names rows rs shown)

  attachments-rows :
      (id : ℤ) (as_ : List Fields)
      → attachments deps id ≡ some as_
      → AreObjects attachment_names (c.attachment_rows id) as_
  unfolding attachments
  attachments-rows id as_ e =
      let (rows, found, shown) = in_order-some attachment_names _ as_ e in
      subst (λ x. AreObjects attachment_names x as_) (answers.attachments_of id rows found)
        (all_named-AreObjects attachment_names rows as_ shown)

  send_message-200 :
      (found : Found)
      → status_of (send_message found w) ≡ some 200
      → (fields : Fields) × (rs as_ : List Fields) × (found ≡ message fields rs as_)
        × ((send_message found w).body
            ≡ w.body ++ json_with fields (("recipients", rs) ∷ ("attachments", as_) ∷ []) ∷ [])
  unfolding send_message http_error
  send_message-200 (message fields rs as_) e = (fields, rs, as_, refl, refl)
  send_message-200 absent e = absurd (ground arith)
  send_message-200 error e = absurd (ground arith)

  with_parts-message :
      (o : Option Fields) (p q : Option (List Fields)) (fields : Fields) (rs as_ : List Fields)
      → with_parts o p q ≡ message fields rs as_
      → (o ≡ some fields) × (p ≡ some rs) × (q ≡ some as_)
  unfolding with_parts
  with_parts-message (some f) (some p) (some q) fields rs as_ e =
      (ground arith, ground arith, ground arith)
  with_parts-message none p q fields rs as_ e = cc
  with_parts-message (some f) none q fields rs as_ e = cc
  with_parts-message (some f) (some p) none fields rs as_ e = cc

  message_of_row-message :
      (id : ℤ) (found : Row) (fields : Fields) (rs as_ : List Fields)
      → message_of_row deps id found ≡ message fields rs as_
      → (cells : List Cell) × (found ≡ row cells)
        × (named (message_columns ++ "parser_status" ∷ []) cells ≡ some fields)
        × (recipients deps id ≡ some rs)
        × (attachments deps id ≡ some as_)
  unfolding message_of_row
  message_of_row-message id no_rows fields rs as_ e = cc
  message_of_row-message id failed fields rs as_ e = cc
  message_of_row-message id (row cells) fields rs as_ e =
      let (f, p, q) = with_parts-message _ _ _ fields rs as_ e in (cells, refl, f, p, q)

  message_answer :
      (id : ℤ) (session : Session) (cells : List Cell)
      → query_row deps.db (message_auth_query session id).sql (message_auth_query session id).args
        ≡ row cells
      → c.IsRow id cells × MayRead t id session
  unfolding query_row message_auth_query message_for_admin message_for_user
  message_answer id session cells e = elim (Bool-cases session.is_admin) [
    | inl admin ↦
        let (rest, found) = first_row-row _ _ (rw admin at e) in
        (answers.message_admin id cells rest found, inl admin)
    | inr user ↦
        let (rest, found) = first_row-row _ _ (rw user at e) in
        let (stored, mine) = answers.message_user id session.email cells rest found in
        (stored, inr mine)
  ]

  -- What the answer 200 to a request for a message means.
  pub record IsOwnMessage (id_param : Text) (r : Request) (w' : Writer) : Type 0 where
    pub session : Session
    pub id : ℤ
    pub cells : List Cell
    pub fields : Fields
    pub rs : List Fields
    pub as_ : List Fields
    pub authenticated : r.session ≡ some session
    pub addressed : numeric_url_param id_param ≡ some id
    pub allowed : MayRead t id session
    pub stored : c.IsRow id cells
    pub shown : IsObject message_names cells fields
    pub recipients : AreObjects recipient_names (c.recipient_rows id) rs
    pub attachments : AreObjects attachment_names (c.attachment_rows id) as_
    pub sent :
        w'.body ≡ w.body ++ json_with fields (("recipients", rs) ∷ ("attachments", as_) ∷ []) ∷ []

  message_for_id-200 :
      (id_param : Text) (asked : Option ℤ) (r : Request) (who : Option Session)
      → numeric_url_param id_param ≡ asked
      → r.session ≡ who
      → status_of (message_for_id deps asked who w) ≡ some 200
      → IsOwnMessage id_param r (message_for_id deps asked who w)
  unfolding message_for_id message_for_session get_message_of http_error
  message_for_id-200 id_param none r who n s e = absurd (ground arith)
  message_for_id-200 id_param (some id) r none n s e = absurd (ground arith)
  message_for_id-200 id_param (some id) r (some session) n s e =
      let (fields, rs, as_, found, sent) = send_message-200 _ e in
      let (cells, given, shown, p, q) = message_of_row-message id _ fields rs as_ found in
      let (stored, allowed) = message_answer id session cells given in
      record {
        session = session;
        id = id;
        cells = cells;
        fields = fields;
        rs = rs;
        as_ = as_;
        authenticated = s;
        addressed = n;
        allowed = allowed;
        stored = stored;
        shown = named-IsObject message_names cells fields shown;
        recipients = recipients-rows id rs p;
        attachments = attachments-rows id as_ q;
        sent = sent;
      }

  -- A message is shown only to a session that is an administrator's or belongs to one of its
  -- recipients, and what is sent is its row, its recipients and its attachments.
  pub get_message-IsOwnMessage :
      (id_param : Text) (r : Request)
      → status_of (get_message deps id_param r w) ≡ some 200
      → IsOwnMessage id_param r (get_message deps id_param r w)
  unfolding get_message
  get_message-IsOwnMessage id_param r = message_for_id-200 id_param _ r _ refl refl
