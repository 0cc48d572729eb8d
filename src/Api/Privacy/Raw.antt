-- ===== src/Api/Privacy/Raw.antt =====
-- Who is sent a raw message.
use web_mail.Base.{
  ◌≡◌, refl, inl, inr, Option, none, some, [], ◌∷◌, ◌++◌, Text, ℤ, arith, Bool-cases,
}
use web_mail.Session.{Session}
use web_mail.Http.{Request, Writer, bytes, status_of, http_error}
use web_mail.Storage.{read_raw_mime}
use web_mail.Api.Params.{numeric_url_param}
use web_mail.Api.Sql.{
  int, text, Row, row, no_rows, failed, query_row, raw_message_auth_query, raw_for_admin,
  raw_for_user,
}
use web_mail.Api.Messages.{Deps, send_raw, raw_of_row, raw_for_session, raw_for_id, get_raw_mime}
use web_mail.Api.Privacy.{Tables, Answers, MayRead, first_row-row}

module _ (deps : Deps) (w : Writer) (fresh : w.sent ≡ none) (t : Tables)
    (answers : Answers deps.db t) where
  send_raw-200 :
      (id : ℤ) (found : Option Text)
      → status_of (send_raw id found w) ≡ some 200
      → (content : Text) × (found ≡ some content)
        × ((send_raw id found w).body ≡ w.body ++ bytes content ∷ [])
  unfolding send_raw http_error
  send_raw-200 id none e = absurd (ground arith)
  send_raw-200 id (some content) e = (content, refl, refl)

  raw_of_row-200 :
      (id : ℤ) (found : Row)
      → status_of (raw_of_row deps id found w) ≡ some 200
      → (hash content : Text) × (found ≡ row (text hash ∷ []))
        × (read_raw_mime deps.disk deps.base hash deps.fs ≡ some content)
        × ((raw_of_row deps id found w).body ≡ w.body ++ bytes content ∷ [])
  unfolding raw_of_row http_error
  raw_of_row-200 id no_rows e = absurd (ground arith)
  raw_of_row-200 id failed e = absurd (ground arith)
  raw_of_row-200 id (row []) e = absurd (ground arith)
  raw_of_row-200 id (row (int n ∷ cells)) e = absurd (ground arith)
  raw_of_row-200 id (row (text hash ∷ c ∷ cells)) e = absurd (ground arith)
  raw_of_row-200 id (row (text hash ∷ [])) e =
      let (content, read, sent) = send_raw-200 id _ e in (hash, content, refl, read, sent)

  raw_answer :
      (id : ℤ) (session : Session) (hash : Text)
      → query_row deps.db
          (raw_message_auth_query session id).sql
          (raw_message_auth_query session id).args
        ≡ row (text hash ∷ [])
      → t.HasHash id hash × MayRead t id session
  unfolding query_row raw_message_auth_query raw_for_admin raw_for_user
  raw_answer id session hash e = elim (Bool-cases session.is_admin) [
    | inl admin ↦
        let (rest, found) = first_row-row _ _ (rw admin at e) in
        (answers.raw_admin id hash rest found, inl admin)
    | inr user ↦
        let (rest, found) = first_row-row _ _ (rw user at e) in
        let (stored, mine) = answers.raw_user id session.email hash rest found in (stored, inr mine)
  ]

  -- What the answer 200 to a request for a raw message means.
  pub record IsOwnRaw (id_param : Text) (r : Request) (w' : Writer) : Type 0 where
    pub session : Session
    pub id : ℤ
    pub hash : Text
    pub content : Text
    pub authenticated : r.session ≡ some session
    pub named : numeric_url_param id_param ≡ some id
    pub stored : t.HasHash id hash
    pub allowed : MayRead t id session
    pub read : read_raw_mime deps.disk deps.base hash deps.fs ≡ some content
    pub sent : w'.body ≡ w.body ++ bytes content ∷ []

  raw_for_id-200 :
      (id_param : Text) (named : Option ℤ) (r : Request) (who : Option Session)
      → numeric_url_param id_param ≡ named
      → r.session ≡ who
      → status_of (raw_for_id deps named who w) ≡ some 200
      → IsOwnRaw id_param r (raw_for_id deps named who w)
  unfolding raw_for_id raw_for_session http_error
  raw_for_id-200 id_param none r who n s e = absurd (ground arith)
  raw_for_id-200 id_param (some id) r none n s e = absurd (ground arith)
  raw_for_id-200 id_param (some id) r (some session) n s e =
      let (hash, content, found, read, sent) = raw_of_row-200 id _ e in
      let (stored, allowed) = raw_answer id session hash found in
      record {
        session = session;
        id = id;
        hash = hash;
        content = content;
        authenticated = s;
        named = n;
        stored = stored;
        allowed = allowed;
        read = read;
        sent = sent;
      }

  -- A raw message is sent only to a session that is an administrator's or belongs to one of the
  -- message's recipients, and what is sent is the stored file of that message.
  pub get_raw_mime-IsOwnRaw :
      (id_param : Text) (r : Request)
      → status_of (get_raw_mime deps id_param r w) ≡ some 200
      → IsOwnRaw id_param r (get_raw_mime deps id_param r w)
  unfolding get_raw_mime
  get_raw_mime-IsOwnRaw id_param r = raw_for_id-200 id_param _ r _ refl refl
