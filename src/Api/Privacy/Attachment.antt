-- ===== src/Api/Privacy/Attachment.antt =====
-- Who is sent an attachment.
use web_mail.Base.{
  ◌≡◌, refl, inl, inr, Option, none, some, [], ◌∷◌, ◌++◌, Text, ℤ, arith, Bool-cases,
}
use web_mail.Session.{Session}
use web_mail.Http.{Request, Writer, bytes, status_of, http_error}
use web_mail.Storage.{read_attachment}
use web_mail.Api.Params.{numeric_url_param, numeric_url_param_allow_zero}
use web_mail.Api.Sql.{
  int, text, Row, row, query_row, attachment_auth_query, attachment_for_admin, attachment_for_user,
}
use web_mail.Api.Messages.{Deps}
use web_mail.Api.Attachments.{
  send_attachment, attachment_of_row, attachment_for_session, attachment_for_ids, get_attachment,
}
use web_mail.Api.Privacy.{Tables, Answers, MayRead, first_row-row}

module _ (deps : Deps) (w : Writer) (fresh : w.sent ≡ none) (t : Tables)
    (answers : Answers deps.db t) where
  -- What the answer 200 to a request for an attachment means.
  record IsSentRow (id : ℤ) (found : Row) (w' : Writer) : Type 0 where
    key : Text
    name : Text
    mime_type : Text
    size : ℤ
    content : Text
    shape : found ≡ row (text key ∷ text name ∷ text mime_type ∷ int size ∷ [])
    read : read_attachment deps.disk deps.base id key deps.fs ≡ some content
    sent : w'.body ≡ w.body ++ bytes content ∷ []

  send_attachment-200 :
      (id size : ℤ) (key name mime_type : Text) (found : Option Text)
      → read_attachment deps.disk deps.base id key deps.fs ≡ found
      → status_of (send_attachment name mime_type size found w) ≡ some 200
      → IsSentRow id
          (row (text key ∷ text name ∷ text mime_type ∷ int size ∷ []))
          (send_attachment name mime_type size found w)
  unfolding send_attachment http_error
  send_attachment-200 id size key name mime_type none read e = absurd (ground arith)
  send_attachment-200 id size key name mime_type (some content) read e = record {
    key = key;
    name = name;
    mime_type = mime_type;
    size = size;
    content = content;
    shape = refl;
    read = read;
    sent = refl;
  }

  attachment_of_row-200 :
      (id : ℤ) (found : Row)
      → status_of (attachment_of_row deps id found w) ≡ some 200
      → IsSentRow id found (attachment_of_row deps id found w)
  unfolding attachment_of_row http_error
  attachment_of_row-200 id (row (text key ∷ text name ∷ text mime_type ∷ int size ∷ [])) e =
      send_attachment-200 id size key name mime_type _ refl e
  attachment_of_row-200 id _ e = absurd (ground arith)

  attachment_answer :
      (id idx size : ℤ) (session : Session) (key name mime_type : Text)
      → query_row deps.db
          (attachment_auth_query session id idx).sql
          (attachment_auth_query session id idx).args
        ≡ row (text key ∷ text name ∷ text mime_type ∷ int size ∷ [])
      → t.HasKey id key × MayRead t id session
  unfolding query_row attachment_auth_query attachment_for_admin attachment_for_user
  attachment_answer id idx size session key name mime_type e = elim (Bool-cases session.is_admin) [
    | inl admin ↦
        let (rest, found) = first_row-row _ _ (rw admin at e) in
        (answers.attachment_admin id idx size key name mime_type rest found, inl admin)
    | inr user ↦
        let (rest, found) = first_row-row _ _ (rw user at e) in
        let (stored, mine) =
          answers.attachment_user id idx size session.email key name mime_type rest found in
        (stored, inr mine)
  ]

  pub record IsOwnAttachment (id_param : Text) (r : Request) (w' : Writer) : Type 0 where
    pub session : Session
    pub id : ℤ
    pub key : Text
    pub content : Text
    pub authenticated : r.session ≡ some session
    pub named : numeric_url_param id_param ≡ some id
    pub stored : t.HasKey id key
    pub allowed : MayRead t id session
    pub read : read_attachment deps.disk deps.base id key deps.fs ≡ some content
    pub sent : w'.body ≡ w.body ++ bytes content ∷ []

  attachment_for_ids-200 :
      (id_param : Text) (named idx : Option ℤ) (r : Request) (who : Option Session)
      → numeric_url_param id_param ≡ named
      → r.session ≡ who
      → status_of (attachment_for_ids deps named idx who w) ≡ some 200
      → IsOwnAttachment id_param r (attachment_for_ids deps named idx who w)
  unfolding attachment_for_ids attachment_for_session http_error
  attachment_for_ids-200 id_param (some id) (some idx) r (some session) n s e =
      let row_sent = attachment_of_row-200 id _ e in
      let (stored, allowed) =
        attachment_answer id idx row_sent.size session row_sent.key row_sent.name row_sent.mime_type
          row_sent.shape in
      record {
        session = session;
        id = id;
        key = row_sent.key;
        content = row_sent.content;
        authenticated = s;
        named = n;
        stored = stored;
        allowed = allowed;
        read = row_sent.read;
        sent = row_sent.sent;
      }
  attachment_for_ids-200 id_param _ _ r _ n s e = absurd (ground arith)

  -- An attachment is sent only to a session that is an administrator's or belongs to one of the
  -- recipients of its message, and what is sent is the stored file of that message.
  pub get_attachment-IsOwnAttachment :
      (id_param idx_param : Text) (r : Request)
      → status_of (get_attachment deps id_param idx_param r w) ≡ some 200
      → IsOwnAttachment id_param r (get_attachment deps id_param idx_param r w)
  unfolding get_attachment
  get_attachment-IsOwnAttachment id_param idx_param r =
      attachment_for_ids-200 id_param _ (numeric_url_param_allow_zero idx_param) r _ refl refl
