-- ===== src/Ingest/Atomicity.antt =====
-- A message is stored as a whole or not at all.
use mathlib.Core.List.{reverse, reverse-cons, append_assoc}
use web_mail.Base.{
  ℕ, String, ◌≡◌, refl, false, ◌||◌, Option, none, some, List, [], ◌∷◌, ◌++◌, Text, ℤ, pos, ap, sym,
  ◌∙◌, arith, Bool-cases, Option-cases, inl, inr, map,
}
use web_mail.Storage.{Disk, FilePath, FileSystem, save_attachment}
use web_mail.Ingest.Message.{Recipient, ParsedAttachment, ParsedMessage}
use web_mail.Ingest.Database.{Tables, Database, has_event, insert_attachment, insert_event}
use web_mail.Ingest.Persist.{
  Faults, persist, insert_recipients, insert_attachments, try_attachment, attachment_row,
  message_row, recipient_row, finish, after_recipients, settle,
}

reverse-step {ℓ} :
    {A : Type ℓ} (x : A) (xs ys : List A) → reverse xs ++ x ∷ ys ≡ reverse (x ∷ xs) ++ ys
reverse-step x xs ys = simp (reverse-cons, append_assoc)

module _ (f : Faults) (d : Disk) (base : FilePath) (now : ℤ) where
  pub insert_recipients-rows :
      (id : ℕ) (rs : List Recipient) (t t' : Tables)
      → insert_recipients f d base now id rs t ≡ some t'
      → t'
        ≡ record t { recipients = reverse (map (recipient_row f d base now id) rs) ++ t.recipients }
  unfolding insert_recipients
  insert_recipients-rows id [] t t' e = ground arith
  insert_recipients-rows id (r ∷ rs) t t' e =
      insert_recipients-rows id rs _ t' (ground arith)
      ∙ ap (λ rows. record t { recipients = rows })
          (reverse-step (recipient_row f d base now id r) (map (recipient_row f d base now id) rs)
            t.recipients)

  pub try_attachment-rows :
      (id : ℕ) (a : ParsedAttachment) (t t' : Tables)
      → try_attachment f d base now id a t ≡ some t'
      → t' ≡ record t { attachments = attachment_row f d base now id a ∷ t.attachments }
  unfolding try_attachment insert_attachment attachment_row
  try_attachment-rows id a t t' e = ground arith

  insert_attachments-rows :
      (id : ℕ) (as_ : List ParsedAttachment) (t t' : Tables) (fs : FileSystem)
      → (insert_attachments f d base now id as_ t fs).0 ≡ some t'
      → t' ≡ record t {
        attachments = reverse (map (attachment_row f d base now id) as_) ++ t.attachments;
      }
  unfolding insert_attachments
  insert_attachments-rows id [] t t' fs e = ground arith
  insert_attachments-rows id (a ∷ as_) t t' fs e =
      elim (Bool-cases (save_attachment d base (pos id) a.content_hash a.content fs).1) [
        | inr failed ↦ cc (rw (insert_attachments, failed) at e)
        | inl saved ↦ elim (Option-cases (try_attachment f d base now id a t)) [
          | inl failed ↦ cc (rw (insert_attachments, saved, failed) at e)
          | inr (t1, recorded) ↦
              insert_attachments-rows id as_ t1 t' _ (rw (insert_attachments, saved, recorded) at e)
              ∙ ap
                  (λ (s : Tables). record s {
                    attachments =
                        reverse (map (attachment_row f d base now id) as_) ++ s.attachments;
                  })
                  (try_attachment-rows id a t t1 recorded)
              ∙ ap (λ rows. record t { attachments = rows })
                  (reverse-step (attachment_row f d base now id a)
                    (map (attachment_row f d base now id) as_) t.attachments)
        ]
      ]

  finish-rows :
      (hash : Text) (o : Option Tables) (t' : Tables)
      → finish f d base now hash o ≡ some t'
      → (t : Tables) × (o ≡ some t)
        × (has_event hash hash t.events ≡ false)
        × (t' ≡ record t {
          events = record { cloudflare_message_id = hash; content_hash = hash } ∷ t.events;
        })
  unfolding finish insert_event
  finish-rows hash none t' e = cc
  finish-rows hash (some t) t' e = (t, refl, ground arith, ground arith)

  -- All the rows of a message, and nothing else.
  pub record IsStored (parsed : ParsedMessage) (parser_status : String) (parser_error : Option Text)
      (id : ℕ) (t t' : Tables) : Type 0 where
    pub messages :
        t'.messages ≡ message_row f d base now id parsed parser_status parser_error ∷ t.messages
    pub recipients :
        t'.recipients
        ≡ reverse (map (recipient_row f d base now id) parsed.recipients) ++ t.recipients
    pub attachments :
        t'.attachments
        ≡ reverse (map (attachment_row f d base now id) parsed.attachments) ++ t.attachments
    pub events :
        t'.events
        ≡ record { cloudflare_message_id = parsed.content_hash; content_hash = parsed.content_hash }
          ∷ t.events
    pub is_new : has_event parsed.content_hash parsed.content_hash t.events ≡ false

  after_recipients-rows :
      (parsed : ParsedMessage) (parser_status : String) (parser_error : Option Text) (id : ℕ)
      (fs : FileSystem) (t t' : Tables) (o : Option Tables)
      → o
        ≡ insert_recipients f d base now id parsed.recipients (record t {
          messages = message_row f d base now id parsed parser_status parser_error ∷ t.messages;
        })
      → (after_recipients f d base now id parsed fs o).0 ≡ some t'
      → IsStored parsed parser_status parser_error id t t'
  unfolding after_recipients
  after_recipients-rows parsed parser_status parser_error id fs t t' none same e = cc
  after_recipients-rows parsed parser_status parser_error id fs t t' (some t1) same e =
      let (t2, recorded, is_new, last) = finish-rows parsed.content_hash _ t' e in
      let first = insert_recipients-rows id parsed.recipients _ t1 (sym same) in
      let second = insert_attachments-rows id parsed.attachments t1 t2 fs recorded in
      record {
        messages = cc (first, second, last);
        recipients = cc (first, second, last);
        attachments = cc (first, second, last);
        events = cc (first, second, last);
        is_new = cc (first, second, is_new);
      }

  settle-none :
      (id : ℕ) (db : Database) (o : Option Tables × FileSystem)
      → (settle f d base now id db o).id ≡ none
      → (settle f d base now id db o).database.tables ≡ db.tables
  unfolding settle
  settle-none id db (none, fs) e = refl
  settle-none id db (some t, fs) e = cc

  -- An error of any statement, of the disk or of the commit leaves every table as it was.
  pub persist-none :
      (parsed : ParsedMessage) (parser_status : String) (parser_error : Option Text) (db : Database)
      (fs : FileSystem)
      → (persist f d base now parsed parser_status parser_error db fs).id ≡ none
      → (persist f d base now parsed parser_status parser_error db fs).database.tables ≡ db.tables
  unfolding persist
  persist-none parsed parser_status parser_error db fs e =
      elim (Bool-cases (f.begin || f.message)) [
        | inl failed ↦ rw failed
        | inr began ↦ rw began (settle-none db.next_id db _ (rw began at e))
      ]

  settle-some :
      (id n : ℕ) (db : Database) (o : Option Tables × FileSystem)
      → (settle f d base now id db o).id ≡ some n
      → (n ≡ id) × (o.0 ≡ some (settle f d base now id db o).database.tables)
  unfolding settle
  settle-some id n db (none, fs) e = cc
  settle-some id n db (some t, fs) e = (cc, refl)

  pub persist-IsStored :
      (parsed : ParsedMessage) (parser_status : String) (parser_error : Option Text) (db : Database)
      (fs : FileSystem) (id : ℕ)
      → (persist f d base now parsed parser_status parser_error db fs).id ≡ some id
      → (id ≡ db.next_id)
        × IsStored parsed parser_status parser_error id db.tables
            (persist f d base now parsed parser_status parser_error db fs).database.tables
  unfolding persist
  persist-IsStored parsed parser_status parser_error db fs id e =
      elim (Bool-cases (f.begin || f.message)) [
        | inl failed ↦ cc (rw (persist, failed) at e)
        | inr began ↦
            let (same, stored) = settle-some db.next_id id db _ (rw (persist, began) at e) in
            (
              same,
              rw (same, persist, began)
                  (after_recipients-rows parsed parser_status parser_error db.next_id fs db.tables _
                    _ refl stored),
            )
      ]
