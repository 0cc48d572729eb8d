-- ===== src/Server/Delivery/Listing.antt =====
-- Which messages the router lists.
use mathlib.Core.Option.{some-injective}
use web_mail.Base.{
  [], ◌∷◌, ◌++◌, ◌≡◌, refl, ap, sym, ◌∙◌, subst, Option, none, some, List, Text, String, ℤ, All,
  trim_space,
}
use web_mail.Session.{Session}
use web_mail.Http.{Request, Writer, status_of}
use web_mail.Auth.Access.{IsLive}
use web_mail.Api.Params.{paging}
use web_mail.Api.Sql.{Cell, int, row, query_row, list_where}
use web_mail.Api.Messages.{message_columns, all_named, list_messages}
use web_mail.Api.Statements.{count_messages}
use web_mail.Api.Privacy.{Tables, MayRead}
use web_mail.Api.Privacy.Objects.{Fields, AreObjects}
use web_mail.Api.Privacy.Listing.{
  list_names, ShowsLists, IsRowOf, list_answer, list_messages-IsOwnList,
}
use web_mail.Server.{Env, App, messages, deps, handle, serve}
use web_mail.Server.Access.{serve-IsGuarded}

module _ (env : Env) where
  -- What the answer 200 to a request for the list means.
  pub record IsListAnswer (param : String → Text) (r : Request) (a : App) (w w' : Writer)
      (t : Tables) (IsRow : ℤ → List Cell → Type 0) : Type 0 where
    pub session : Session
    pub total : ℤ
    pub rows : List (List Cell)
    pub listed : List Fields
    pub live : IsLive (some env.config) env.now r a.sessions session
    pub readable : All (IsRowOf IsRow (λ id. MayRead t id session)) rows
    pub shown : all_named message_columns rows ≡ some listed
    pub objects : AreObjects list_names rows listed
    pub counted :
        query_row
          (deps env a).db
          (count_messages ++ (list_where session (trim_space (param "q"))).sql)
          (list_where session (trim_space (param "q"))).args
        ≡ row (int total ∷ [])
    pub sent :
        w'.body ≡ w.body ++ list_answer (paging (param "page") (param "per_page")) total listed ∷ []

  -- A list is sent through the router only to a request whose cookie names a stored session that has
  -- not expired, and every row of it is that of a message which that session may read; the total is
  -- the count for that session and search. `routed` is that chi finds the route whatever the request's
  -- id is.
  pub serve-IsListAnswer :
      (param : String → Text) (r : Request) (a : App) (w : Writer) (t : Tables)
      (IsRow : ℤ → List Cell → Type 0)
      (routed : (i : Option Text) → env.route (record r { request_id = i }) ≡ messages param)
      → w.sent ≡ none
      → ShowsLists (env.sql a.mail.database) t IsRow
      → status_of (serve env r a w).1 ≡ some 200
      → IsListAnswer param r a w (serve env r a w).1 t IsRow
  unfolding handle
  serve-IsListAnswer param r a w t IsRow routed fresh answers ok =
      let g =
        serve-IsGuarded env (λ q b v. list_messages (deps env b) param q v) (messages param) r a w
          (λ r' w'. refl) routed fresh ok in
      let own =
        list_messages-IsOwnList (deps env a) g.writer g.unsent t IsRow answers param _
          (sym (ap status_of g.answered) ∙ ok) in
      let same = some-injective _ _ (sym own.authenticated) in
      let answer = list_answer (paging (param "page") (param "per_page")) own.total own.listed in
      record {
        session = own.session;
        total = own.total;
        rows = own.rows;
        listed = own.listed;
        live = subst (IsLive (some env.config) env.now r a.sessions) (sym same) g.live;
        readable = own.readable;
        shown = own.shown;
        objects = own.objects;
        counted = own.counted;
        sent = ap Writer.body g.answered ∙ own.sent ∙ ap (λ b. b ++ answer ∷ []) g.blank;
      }
