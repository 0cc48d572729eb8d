-- ===== src/Server/Delivery.antt =====
-- To whom the router sends stored messages and attachments.
pub mod Message
pub mod Listing
use mathlib.Core.Option.{some-injective}
use web_mail.Base.{[], ◌∷◌, ◌++◌, ◌≡◌, refl, ap, sym, ◌∙◌, subst, Option, none, some, Text, ℤ}
use web_mail.Session.{Session}
use web_mail.Http.{Request, Writer, status_of, bytes}
use web_mail.Auth.Access.{IsLive}
use web_mail.Api.Messages.{get_raw_mime}
use web_mail.Api.Attachments.{get_attachment}
use web_mail.Api.Params.{numeric_url_param}
use web_mail.Api.Privacy.{Tables, Answers, MayRead}
use web_mail.Api.Privacy.Raw.{get_raw_mime-IsOwnRaw}
use web_mail.Api.Privacy.Attachment.{get_attachment-IsOwnAttachment}
use web_mail.Storage.{read_raw_mime, read_attachment}
use web_mail.Server.{Env, App, raw, attachment, deps, handle, serve}
use web_mail.Server.Access.{serve-IsGuarded}

module _ (env : Env) where
  -- What the answer 200 to a request for a raw message means.
  pub record IsRawAnswer (id_param : Text) (r : Request) (a : App) (w w' : Writer) (t : Tables)
      : Type 0 where
    pub session : Session
    pub id : ℤ
    pub hash : Text
    pub content : Text
    pub live : IsLive (some env.config) env.now r a.sessions session
    pub named : numeric_url_param id_param ≡ some id
    pub stored : t.HasHash id hash
    pub allowed : MayRead t id session
    pub read : read_raw_mime env.disk env.base hash a.mail.files ≡ some content
    pub sent : w'.body ≡ w.body ++ bytes content ∷ []

  -- A raw message is sent through the router only to a request whose cookie names a stored session
  -- that has not expired, of an administrator or of a recipient of the message, and it is the
  -- stored file of that message. `routed` is that chi finds the route whatever the request's id is.
  pub serve-IsRawAnswer :
      (id : Text) (r : Request) (a : App) (w : Writer) (t : Tables)
      (routed : (i : Option Text) → env.route (record r { request_id = i }) ≡ raw id)
      → w.sent ≡ none
      → Answers (env.sql a.mail.database) t
      → status_of (serve env r a w).1 ≡ some 200
      → IsRawAnswer id r a w (serve env r a w).1 t
  unfolding handle
  serve-IsRawAnswer id r a w t routed fresh answers ok =
      let g =
        serve-IsGuarded env (λ q b v. get_raw_mime (deps env b) id q v) (raw id) r a w
          (λ r' w'. refl) routed fresh ok in
      let own =
        get_raw_mime-IsOwnRaw (deps env a) g.writer g.unsent t answers id _
          (sym (ap status_of g.answered) ∙ ok) in
      record {
        session = g.session;
        id = own.id;
        hash = own.hash;
        content = own.content;
        live = g.live;
        named = own.named;
        stored = own.stored;
        allowed = subst (MayRead t own.id) (some-injective _ _ (sym own.authenticated)) own.allowed;
        read = own.read;
        sent = ap Writer.body g.answered ∙ own.sent ∙ ap (λ b. b ++ bytes own.content ∷ []) g.blank;
      }

  -- What the answer 200 to a request for an attachment means.
  pub record IsAttachmentAnswer (id_param : Text) (r : Request) (a : App) (w w' : Writer)
      (t : Tables) : Type 0 where
    pub session : Session
    pub id : ℤ
    pub key : Text
    pub content : Text
    pub live : IsLive (some env.config) env.now r a.sessions session
    pub named : numeric_url_param id_param ≡ some id
    pub stored : t.HasKey id key
    pub allowed : MayRead t id session
    pub read : read_attachment env.disk env.base id key a.mail.files ≡ some content
    pub sent : w'.body ≡ w.body ++ bytes content ∷ []

  -- An attachment is sent through the router only to a request whose cookie names a stored session
  -- that has not expired, of an administrator or of a recipient of its message, and it is the stored
  -- file of an attachment of that message. `routed` is that chi finds the route whatever the
  -- request's id is.
  pub serve-IsAttachmentAnswer :
      (id idx : Text) (r : Request) (a : App) (w : Writer) (t : Tables)
      (routed : (i : Option Text) → env.route (record r { request_id = i }) ≡ attachment id idx)
      → w.sent ≡ none
      → Answers (env.sql a.mail.database) t
      → status_of (serve env r a w).1 ≡ some 200
      → IsAttachmentAnswer id r a w (serve env r a w).1 t
  unfolding handle
  serve-IsAttachmentAnswer id idx r a w t routed fresh answers ok =
      let g =
        serve-IsGuarded env (λ q b v. get_attachment (deps env b) id idx q v) (attachment id idx) r
          a w (λ r' w'. refl) routed fresh ok in
      let own =
        get_attachment-IsOwnAttachment (deps env a) g.writer g.unsent t answers id idx _
          (sym (ap status_of g.answered) ∙ ok) in
      record {
        session = g.session;
        id = own.id;
        key = own.key;
        content = own.content;
        live = g.live;
        named = own.named;
        stored = own.stored;
        allowed = subst (MayRead t own.id) (some-injective _ _ (sym own.authenticated)) own.allowed;
        read = own.read;
        sent = ap Writer.body g.answered ∙ own.sent ∙ ap (λ b. b ++ bytes own.content ∷ []) g.blank;
      }
