-- ===== src/Server/Delivery/Message.antt =====
-- To whom the router shows a message.
use mathlib.Core.Option.{some-injective}
use web_mail.Base.{[], ◌∷◌, ◌++◌, ◌≡◌, refl, ap, sym, ◌∙◌, subst, Option, none, some, List, Text, ℤ}
use web_mail.Session.{Session}
use web_mail.Http.{Request, Writer, status_of, json_with}
use web_mail.Auth.Access.{IsLive}
use web_mail.Api.Params.{numeric_url_param}
use web_mail.Api.Sql.{Cell}
use web_mail.Api.Messages.{get_message}
use web_mail.Api.Privacy.Objects.{Fields, IsObject, AreObjects}
use web_mail.Api.Privacy.{Tables, MayRead}
use web_mail.Api.Privacy.Message.{
  Rows, message_names, recipient_names, attachment_names, ShowsMessages, get_message-IsOwnMessage,
}
use web_mail.Server.{Env, App, message, deps, handle, serve}
use web_mail.Server.Access.{serve-IsGuarded}

module _ (env : Env) where
  -- What the answer 200 to a request for a message means.
  pub record IsMessageAnswer (id_param : Text) (r : Request) (a : App) (w w' : Writer) (t : Tables)
      (c : Rows) : Type 0 where
    pub session : Session
    pub id : ℤ
    pub cells : List Cell
    pub fields : Fields
    pub rs : List Fields
    pub as_ : List Fields
    pub live : IsLive (some env.config) env.now r a.sessions session
    pub addressed : numeric_url_param id_param ≡ some id
    pub allowed : MayRead t id session
    pub stored : c.IsRow id cells
    pub shown : IsObject message_names cells fields
    pub recipients : AreObjects recipient_names (c.recipient_rows id) rs
    pub attachments : AreObjects attachment_names (c.attachment_rows id) as_
    pub sent :
        w'.body ≡ w.body ++ json_with fields (("recipients", rs) ∷ ("attachments", as_) ∷ []) ∷ []

  -- A message is shown through the router only to a request whose cookie names a stored session that
  -- has not expired, of an administrator or of a recipient of the message, and what is sent is its
  -- row with its recipients and attachments. `routed` is that chi finds the route whatever the
  -- request's id is.
  pub serve-IsMessageAnswer :
      (id : Text) (r : Request) (a : App) (w : Writer) (t : Tables) (c : Rows)
      (routed : (i : Option Text) → env.route (record r { request_id = i }) ≡ message id)
      → w.sent ≡ none
      → ShowsMessages (env.sql a.mail.database) t c
      → status_of (serve env r a w).1 ≡ some 200
      → IsMessageAnswer id r a w (serve env r a w).1 t c
  unfolding handle
  serve-IsMessageAnswer id r a w t c routed fresh answers ok =
      let g =
        serve-IsGuarded env (λ q b v. get_message (deps env b) id q v) (message id) r a w
          (λ r' w'. refl) routed fresh ok in
      let own =
        get_message-IsOwnMessage (deps env a) g.writer g.unsent t c answers id _
          (sym (ap status_of g.answered) ∙ ok) in
      let answer = json_with own.fields (("recipients", own.rs) ∷ ("attachments", own.as_) ∷ []) in
      record {
        session = g.session;
        id = own.id;
        cells = own.cells;
        fields = own.fields;
        rs = own.rs;
        as_ = own.as_;
        live = g.live;
        addressed = own.addressed;
        allowed = subst (MayRead t own.id) (some-injective _ _ (sym own.authenticated)) own.allowed;
        stored = own.stored;
        shown = own.shown;
        recipients = own.recipients;
        attachments = own.attachments;
        sent = ap Writer.body g.answered ∙ own.sent ∙ ap (λ b. b ++ answer ∷ []) g.blank;
      }
