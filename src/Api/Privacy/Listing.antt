-- ===== src/Api/Privacy/Listing.antt =====
-- Which messages a list shows.
use web_mail.Base.{
  ◌≡◌, refl, inl, inr, true, false, Option, none, some, List, [], ◌∷◌, ◌++◌, map, Text, String, ℤ,
  arith, All, Bool-cases, trim_space,
}
use web_mail.Session.{Session}
use web_mail.Http.{Request, Writer, Value, string, json_with, status_of, http_error}
use web_mail.Http
use web_mail.Api.Params.{Page, paging, is_search_query_usable}
use web_mail.Api.Sql.{
  Cell, int, text, Sql, Row, row, no_rows, failed, query_row, Statement, where_of, join_and,
  list_where,
}
use web_mail.Api.Messages.{
  Deps, message_columns, all_named, list_sql, send_list, list_of_count, list_for_session,
  list_messages,
}
use web_mail.Api.Privacy.{Tables, MayRead}
use web_mail.Api.Privacy.Objects.{Fields, AreObjects, all_named-AreObjects}
use web_mail.Api.Privacy.Message.{in_order-some}
use web_mail.Api.Statements.{
  list_all_sql, search_all_sql, list_of_recipient_sql, search_of_recipient_sql, count_messages,
}

-- `cells` is the row of a message that satisfies P.
abbrev pub IsRowOf : (ℤ → List Cell → Type 0) → (ℤ → Type 0) → List Cell → Type 0
IsRowOf IsRow P cells = (id : ℤ) × IsRow id cells × P id

-- What SQL says of the rows of the four statements.
pub record ShowsLists (db : Sql) (t : Tables) (IsRow : ℤ → List Cell → Type 0) : Type 0 where
  pub list_admin :
      (limit offset : ℤ) (rows : List (List Cell))
      → db.query list_all_sql (int limit ∷ int offset ∷ []) ≡ some rows
      → All (IsRowOf IsRow (λ id. Unit)) rows
  pub search_admin :
      (q : Text) (limit offset : ℤ) (rows : List (List Cell))
      → db.query search_all_sql (text q ∷ int limit ∷ int offset ∷ []) ≡ some rows
      → All (IsRowOf IsRow (λ id. Unit)) rows
  pub list_user :
      (email : Text) (limit offset : ℤ) (rows : List (List Cell))
      → db.query list_of_recipient_sql (text email ∷ int limit ∷ int offset ∷ []) ≡ some rows
      → All (IsRowOf IsRow (λ id. t.IsRecipient id email)) rows
  pub search_user :
      (email q : Text) (limit offset : ℤ) (rows : List (List Cell))
      → db.query search_of_recipient_sql (text email ∷ text q ∷ int limit ∷ int offset ∷ [])
        ≡ some rows
      → All (IsRowOf IsRow (λ id. t.IsRecipient id email)) rows

IsRowOf-mono :
    (IsRow : ℤ → List Cell → Type 0) (P Q : ℤ → Type 0)
    → ((id : ℤ) → P id → Q id)
    → (rows : List (List Cell)) → All (IsRowOf IsRow P) rows
    → All (IsRowOf IsRow Q) rows
IsRowOf-mono IsRow P Q h [] a = tt
IsRowOf-mono IsRow P Q h (cells ∷ rows) a =
    let (id, stored, p) = a.0 in ((id, stored, h id p), IsRowOf-mono IsRow P Q h rows a.1)

-- The JSON names of the columns.
abbrev pub list_names : List String
list_names =
    "id" ∷ "sender" ∷ "subject" ∷ "message_date" ∷ "received_at" ∷ "text_body" ∷ "html_body" ∷ []

-- The objects of a list, behind the statement that does not select their last field.
abbrev pub listing : List Fields → List Fields
listing listed = map (λ fields. fields ++ ("parser_status", string []) ∷ []) listed

abbrev pub list_answer : Page → ℤ → List Fields → Http.Body
list_answer page total listed =
    json_with
      (("total", Http.int total)
        ∷ ("page", Http.int page.page)
        ∷ ("per_page", Http.int page.per_page)
        ∷ [])
      (("messages", listing listed) ∷ [])

module _ (deps : Deps) (w : Writer) (fresh : w.sent ≡ none) (t : Tables)
    (IsRow : ℤ → List Cell → Type 0) (answers : ShowsLists deps.db t IsRow) where
  send_list-200 :
      (page : Page) (total : ℤ) (o : Option (List Fields))
      → status_of (send_list page total o w) ≡ some 200
      → (listed : List Fields) × (o ≡ some listed)
        × ((send_list page total o w).body ≡ w.body ++ list_answer page total listed ∷ [])
  unfolding send_list http_error
  send_list-200 page total none e = absurd (ground arith)
  send_list-200 page total (some listed) e = (listed, refl, refl)

  rows_for_user :
      (session : Session) (q : Text) (limit offset : ℤ) (rows : List (List Cell))
      → session.is_admin ≡ false
      → deps.db.query
          (list_sql (list_where session q).sql)
          ((list_where session q).args ++ int limit ∷ int offset ∷ [])
        ≡ some rows
      → All (IsRowOf IsRow (λ id. t.IsRecipient id session.email)) rows
  unfolding list_where where_of join_and
  rows_for_user session q limit offset rows user e = elim (Bool-cases (is_search_query_usable q)) [
    | inl used ↦ answers.search_user session.email q limit offset rows (rw (user, used) at e)
    | inr unused ↦ answers.list_user session.email limit offset rows (rw (user, unused) at e)
  ]

  rows_for_admin :
      (session : Session) (q : Text) (limit offset : ℤ) (rows : List (List Cell))
      → session.is_admin ≡ true
      → deps.db.query
          (list_sql (list_where session q).sql)
          ((list_where session q).args ++ int limit ∷ int offset ∷ [])
        ≡ some rows
      → All (IsRowOf IsRow (λ id. Unit)) rows
  unfolding list_where where_of join_and
  rows_for_admin session q limit offset rows admin e =
      elim (Bool-cases (is_search_query_usable q)) [
        | inl used ↦ answers.search_admin q limit offset rows (rw (admin, used) at e)
        | inr unused ↦ answers.list_admin limit offset rows (rw (admin, unused) at e)
      ]

  rows_of_list :
      (session : Session) (q : Text) (limit offset : ℤ) (rows : List (List Cell))
      → deps.db.query
          (list_sql (list_where session q).sql)
          ((list_where session q).args ++ int limit ∷ int offset ∷ [])
        ≡ some rows
      → All (IsRowOf IsRow (λ id. MayRead t id session)) rows
  rows_of_list session q limit offset rows e = elim (Bool-cases session.is_admin) [
    | inl admin ↦
        IsRowOf-mono IsRow _ _ (λ id u. inl admin) rows
          (rows_for_admin session q limit offset rows admin e)
    | inr user ↦
        IsRowOf-mono IsRow _ _ (λ id mine. inr mine) rows
          (rows_for_user session q limit offset rows user e)
  ]

  list_of_count-200 :
      (page : Page) (q : Statement) (counted : Row)
      → status_of (list_of_count deps page q counted w) ≡ some 200
      → (total : ℤ) × (rows : List (List Cell)) × (listed : List Fields) × (counted
          ≡ row (int total ∷ []))
        × (deps.db.query (list_sql q.sql) (q.args ++ int page.per_page ∷ int page.offset ∷ [])
            ≡ some rows)
        × (all_named message_columns rows ≡ some listed)
        × ((list_of_count deps page q counted w).body
            ≡ w.body ++ list_answer page total listed ∷ [])
  unfolding list_of_count http_error
  list_of_count-200 page q (row (int total ∷ [])) e =
      let (listed, found, sent) = send_list-200 page total _ e in
      let (rows, answered, shown) = in_order-some message_columns _ listed found in
      (total, rows, listed, refl, answered, shown, sent)
  list_of_count-200 page q (row []) e = absurd (ground arith)
  list_of_count-200 page q (row (text s ∷ [])) e = absurd (ground arith)
  list_of_count-200 page q (row (int n ∷ c ∷ cs)) e = absurd (ground arith)
  list_of_count-200 page q (row (text s ∷ c ∷ cs)) e = absurd (ground arith)
  list_of_count-200 page q no_rows e = absurd (ground arith)
  list_of_count-200 page q failed e = absurd (ground arith)

  -- What the answer 200 to a request for the list means.
  pub record IsOwnList (param : String → Text) (r : Request) (w' : Writer) : Type 0 where
    pub session : Session
    pub total : ℤ
    pub rows : List (List Cell)
    pub listed : List Fields
    pub authenticated : r.session ≡ some session
    pub readable : All (IsRowOf IsRow (λ id. MayRead t id session)) rows
    pub shown : all_named message_columns rows ≡ some listed
    pub objects : AreObjects list_names rows listed
    pub counted :
        query_row deps.db
          (count_messages ++ (list_where session (trim_space (param "q"))).sql)
          (list_where session (trim_space (param "q"))).args
        ≡ row (int total ∷ [])
    pub sent :
        w'.body ≡ w.body ++ list_answer (paging (param "page") (param "per_page")) total listed ∷ []

  list_for_session-200 :
      (param : String → Text) (r : Request) (who : Option Session)
      → r.session ≡ who
      → status_of (list_for_session deps param who w) ≡ some 200
      → IsOwnList param r (list_for_session deps param who w)
  unfolding list_for_session http_error
  list_for_session-200 param r none s e = absurd (ground arith)
  list_for_session-200 param r (some session) s e =
      let (total, rows, listed, counted, answered, shown, sent) = list_of_count-200 _ _ _ e in
      record {
        session = session;
        total = total;
        rows = rows;
        listed = listed;
        authenticated = s;
        readable = rows_of_list session _ _ _ rows answered;
        shown = shown;
        objects = all_named-AreObjects list_names rows listed shown;
        counted = counted;
        sent = sent;
      }

  -- A list shows the rows of messages that the session may read, and no other.
  pub list_messages-IsOwnList :
      (param : String → Text) (r : Request)
      → status_of (list_messages deps param r w) ≡ some 200
      → IsOwnList param r (list_messages deps param r w)
  unfolding list_messages
  list_messages-IsOwnList param r = list_for_session-200 param r _ refl
