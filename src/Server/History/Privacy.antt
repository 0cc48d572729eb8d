-- ===== src/Server/History/Privacy.antt =====
-- To whom the stored messages are sent, after any sequence of requests.
use web_mail.Base.{◌≡◌, refl, Option, some, List, Text, String, ℤ}
use web_mail.Http.{Request, new_writer, status_of}
use web_mail.Ingest.Handler.{State}
use web_mail.Api.Sql.{Cell}
use web_mail.Api.Privacy.{Tables, Answers}
use web_mail.Api.Privacy.Message.{Rows, ShowsMessages}
use web_mail.Api.Privacy.Listing.{ShowsLists}
use web_mail.Server.{Env, App, raw, attachment, message, messages, serve}
use web_mail.Server.Delivery.{
  IsRawAnswer, serve-IsRawAnswer, IsAttachmentAnswer, serve-IsAttachmentAnswer,
}
use web_mail.Server.Delivery.Listing.{IsListAnswer, serve-IsListAnswer}
use web_mail.Server.Delivery.Message.{IsMessageAnswer, serve-IsMessageAnswer}
use web_mail.Server.History.{Event, Exchange, IsOpened, run, run-IsOpened}

module _ (mail : State) (events : List Event) (env : Env) (r : Request) (t : Tables) where
  abbrev server : App
  server = (run mail events).0

  abbrev past : List Exchange
  past = (run mail events).1

  -- After any requests to the server since its start, a raw message is sent only to a request with
  -- the cookie of an earlier login, whose PSK was accepted, which was not followed by a logout with
  -- that cookie and has not expired; the login was an administrator's or a recipient's of the message,
  -- and what is sent is the stored file of that message.
  pub run-IsRawAnswer :
      (id : Text) (routed : (i : Option Text) → env.route (record r { request_id = i }) ≡ raw id)
      → Answers (env.sql (run mail events).0.mail.database) t
      → status_of (serve env r (run mail events).0 new_writer).1 ≡ some 200
      → (d : IsRawAnswer env id r
          (run mail events).0
          new_writer
          (serve env r (run mail events).0 new_writer).1
          t)
        × IsOpened d.session (run mail events).1
  run-IsRawAnswer id routed answers ok =
      let d = serve-IsRawAnswer env id r server new_writer t routed refl answers ok in
      (d, (run-IsOpened mail events d.live.token d.session d.live.stored).1)

  -- After any requests to the server since its start, an attachment is sent only to a request with
  -- the cookie of an earlier login, which was not followed by a logout with that cookie and has not
  -- expired; the login was an administrator's or a recipient's of the attachment's message, and what
  -- is sent is the stored file of an attachment of that message.
  pub run-IsAttachmentAnswer :
      (id idx : Text)
      (routed : (i : Option Text) → env.route (record r { request_id = i }) ≡ attachment id idx)
      → Answers (env.sql (run mail events).0.mail.database) t
      → status_of (serve env r (run mail events).0 new_writer).1 ≡ some 200
      → (d : IsAttachmentAnswer env id r
          (run mail events).0
          new_writer
          (serve env r (run mail events).0 new_writer).1
          t)
        × IsOpened d.session (run mail events).1
  run-IsAttachmentAnswer id idx routed answers ok =
      let d = serve-IsAttachmentAnswer env id idx r server new_writer t routed refl answers ok in
      (d, (run-IsOpened mail events d.live.token d.session d.live.stored).1)

  -- After any requests to the server since its start, a message is shown only to a request with the
  -- cookie of an earlier login, which was not followed by a logout with that cookie and has not
  -- expired; the login was an administrator's or a recipient's of the message, and what is sent is
  -- the row of the message, with the rows that the tables have of its recipients and attachments, if
  -- the statements of Api/Statements give what SQL says.
  pub run-IsMessageAnswer :
      (c : Rows) (id : Text)
      (routed : (i : Option Text) → env.route (record r { request_id = i }) ≡ message id)
      → ShowsMessages (env.sql (run mail events).0.mail.database) t c
      → status_of (serve env r (run mail events).0 new_writer).1 ≡ some 200
      → (d : IsMessageAnswer env id r
          (run mail events).0
          new_writer
          (serve env r (run mail events).0 new_writer).1
          t
          c)
        × IsOpened d.session (run mail events).1
  run-IsMessageAnswer c id routed answers ok =
      let d = serve-IsMessageAnswer env id r server new_writer t c routed refl answers ok in
      (d, (run-IsOpened mail events d.live.token d.session d.live.stored).1)

  -- After any requests to the server since its start, a list of messages is sent only to a request
  -- with the cookie of an earlier login, which was not followed by a logout with that cookie and has
  -- not expired; every row of it is that of a message which the user of the login may read, as an
  -- administrator or a recipient, and the total is the count for that user and search.
  pub run-IsListAnswer :
      (IsRow : ℤ → List Cell → Type 0) (param : String → Text)
      (routed : (i : Option Text) → env.route (record r { request_id = i }) ≡ messages param)
      → ShowsLists (env.sql (run mail events).0.mail.database) t IsRow
      → status_of (serve env r (run mail events).0 new_writer).1 ≡ some 200
      → (d : IsListAnswer env param r
          (run mail events).0
          new_writer
          (serve env r (run mail events).0 new_writer).1
          t
          IsRow)
        × IsOpened d.session (run mail events).1
  run-IsListAnswer IsRow param routed answers ok =
      let d = serve-IsListAnswer env param r server new_writer t IsRow routed refl answers ok in
      (d, (run-IsOpened mail events d.live.token d.session d.live.stored).1)
