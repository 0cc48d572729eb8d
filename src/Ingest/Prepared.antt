-- ===== src/Ingest/Prepared.antt =====
-- What the handler stores of a message, whether it was parsed or not.
use web_mail.Ingest.Leaves.{Leaf, leaves, gather, attachments_of, text_of, Adds}
use web_mail.Ingest.Leaves.Parsing.{parse_entity-Adds}
use web_mail.Ingest.Parser.{headers_of}
use web_mail.Base.{
  List, codes, ◌∙◌, ◌≡◌, refl, ◌≢◌, ap, sym, subst, ◌⊎◌, inl, inr, Option, none, some, [], Text,
  is_empty, is_empty_iff, All, Bool-cases, ℤ,
}
use web_mail.Ingest.Message.{ParsedMessage}
use web_mail.Ingest.Recipients.{named_recipients}
use web_mail.Ingest.Mime.{Header, Body, Library, Opened, unreadable, opened}
use web_mail.Ingest.Decoding.{html_to_text}
use web_mail.Ingest.Parser.{hash_bytes, fill_text, filled, parse_opened, parse_mime}
use web_mail.Ingest.Fallback.{error_body, fallback_opened, fallback_parsed_message, parsing}
use web_mail.Ingest.Handler.{Prepared, with_hash, prepare_parsed, prepare}
use web_mail.Ingest.Utf8.{IsUtf8, IsLawful}
use web_mail.Ingest.Parsed.{IsMeasured, IsSound, headers_of-IsSound, parse_entity-IsSound}

module _ (lib : Library) where
  -- A message that was parsed without an error.
  pub record IsParsed (h : Header) (hash : Text) (p : ParsedMessage) : Type 0 where
    pub kept : p.content_hash ≡ hash
    pub addressed : p.recipients ≡ named_recipients lib h
    pub measured : All (IsMeasured lib) p.attachments
    pub subject : IsUtf8 lib p.subject
    pub html : IsUtf8 lib p.html_body
    -- its own text, or that of the HTML
    pub text :
        (IsUtf8 lib p.text_body × ((p.text_body ≢ []) ⊎ (p.html_body ≡ [])))
        ⊎ ((p.html_body ≢ []) × (p.text_body ≡ html_to_text lib p.html_body))

  fill_text-IsParsed :
      (h : Header) (hash : Text) (p : ParsedMessage)
      → IsSound lib h hash p
      → IsParsed h hash (fill_text lib p)
  unfolding fill_text
  fill_text-IsParsed h hash p s = elim (Bool-cases (is_empty p.text_body)) [
    | inr full ↦ rw (fill_text, full) (as_is (inl (λ e. cc (full, (is_empty_iff p.text_body).1 e))))
    | inl bare ↦ elim (Bool-cases (is_empty p.html_body)) [
      | inl none_ ↦ rw (fill_text, bare, none_) (as_is (inr ((is_empty_iff p.html_body).0 none_)))
      | inr html ↦
          rw (fill_text, bare, html)
            (record {
              kept = s.kept;
              addressed = s.addressed;
              measured = s.measured;
              subject = s.subject;
              html = s.html;
              text = inr ((λ e. cc (html, (is_empty_iff p.html_body).1 e)), refl);
            })
    ]
  ]
    where
      as_is : (p.text_body ≢ []) ⊎ (p.html_body ≡ []) → IsParsed h hash p
      as_is why = record {
        kept = s.kept;
        addressed = s.addressed;
        measured = s.measured;
        subject = s.subject;
        html = s.html;
        text = inl (s.text, why);
      }

  -- The attachments and texts are those of the leaves of the message, in order.
  pub record IsCollected (ls : List Leaf) (p : ParsedMessage) : Type 0 where
    pub attachments : p.attachments ≡ gather (attachments_of lib) ls
    pub html : p.html_body ≡ gather (text_of lib (codes "text/html")) ls
    pub text :
        (p.text_body ≡ gather (text_of lib (codes "text/plain")) ls)
        ⊎ ((gather (text_of lib (codes "text/plain")) ls ≡ [])
            × (p.text_body ≡ html_to_text lib p.html_body))

  fill_text-IsCollected :
      (h : Header) (hash : Text) (ls : List Leaf) (p : ParsedMessage)
      → Adds lib ls (headers_of lib h hash) p
      → IsCollected ls (fill_text lib p)
  unfolding fill_text headers_of
  fill_text-IsCollected h hash ls p a = elim (Bool-cases (is_empty p.text_body)) [
    | inr full ↦
        rw (fill_text, full)
          (record { attachments = a.attachments; html = a.html; text = inl a.text })
    | inl bare ↦ elim (Bool-cases (is_empty p.html_body)) [
      | inl none_ ↦
          rw (fill_text, bare, none_)
            (record { attachments = a.attachments; html = a.html; text = inl a.text })
      | inr html ↦
          rw (fill_text, bare, html)
            (record {
              attachments = a.attachments;
              html = a.html;
              text = inr (sym a.text ∙ (is_empty_iff p.text_body).0 bare, refl);
            })
    ]
  ]

  -- The message could be read, and what its headers name and its parts hold was parsed.
  abbrev pub IsRead : Opened → Text → ParsedMessage → Type 0
  IsRead o hash p =
      (h : Header) × (b : Body) × (o ≡ opened h b)
      × IsParsed h hash p
      × IsCollected (leaves lib h b) p

  filled-IsRead :
      (h : Header) (b : Body) (hash : Text) (r : ParsedMessage × Option Text) (p : ParsedMessage)
      → IsSound lib h hash r.0
      → ((q : ParsedMessage) → r ≡ (q, none) → Adds lib (leaves lib h b) (headers_of lib h hash) q)
      → filled lib r ≡ (p, none)
      → IsRead (opened h b) hash p
  unfolding filled
  filled-IsRead h b hash (q, some e) p s a same = absurd (cc same)
  filled-IsRead h b hash (q, none) p s a same =
      let done : fill_text lib q ≡ p = ap (λ (r : ParsedMessage × Option Text). r.0) same in
      (
        h,
        b,
        refl,
        subst (IsParsed h hash) done (fill_text-IsParsed h hash q s),
        subst (IsCollected (leaves lib h b)) done
            (fill_text-IsCollected h hash (leaves lib h b) q (a q refl)),
      )

  parse_opened-IsRead :
      (laws : IsLawful lib) (hash : Text) (o : Opened) (p : ParsedMessage)
      → parse_opened lib hash o ≡ (p, none)
      → IsRead o hash p
  unfolding parse_opened
  parse_opened-IsRead laws hash (unreadable e) p same = absurd (cc same)
  parse_opened-IsRead laws hash (opened h b) p same =
      filled-IsRead h b hash _ p
        (parse_entity-IsSound lib laws h hash h b _ (headers_of-IsSound lib laws h hash))
        (λ q. parse_entity-Adds lib h b _ q) same

  with_hash-id : (hash : Text) (p : ParsedMessage) → p.content_hash ≡ hash → with_hash hash p ≡ p
  unfolding with_hash
  with_hash-id hash p e = elim (Bool-cases (is_empty p.content_hash)) [
    | inl bare ↦ rw (with_hash, bare) (ap (λ (t : Text). record p { content_hash = t }) (sym e))
    | inr full ↦ rw (with_hash, full) refl
  ]

  -- What was stored of a message that was not parsed.
  pub record IsFallback (hash e : Text) (p : ParsedMessage) : Type 0 where
    pub kept : p.content_hash ≡ hash
    pub nobody : p.recipients ≡ []
    pub bare : p.attachments ≡ []
    pub text : p.text_body ≡ error_body e

  fallback_opened-IsFallback :
      (hash e : Text) (p : ParsedMessage) (o : Opened)
      → IsFallback hash e p
      → IsFallback hash e (fallback_opened lib p o)
  unfolding fallback_opened
  fallback_opened-IsFallback hash e p (unreadable t) s = s
  fallback_opened-IsFallback hash e p (opened h b) s = record {
    kept = s.kept;
    nobody = s.nobody;
    bare = s.bare;
    text = s.text;
  }

  fallback_parsed_message-IsFallback :
      (now : ℤ) (raw hash e : Text) → IsFallback hash e (fallback_parsed_message lib now raw hash e)
  unfolding fallback_parsed_message
  fallback_parsed_message-IsFallback now raw hash e =
      fallback_opened-IsFallback hash e _ (lib.read_message raw)
        (record { kept = refl; nobody = refl; bare = refl; text = refl })

  -- What is stored of a message, by whether it was parsed.
  abbrev pub IsPrepared : Text → Prepared → Type 0
  IsPrepared raw q =
      ((q.parser_status ≡ "success")
        × (q.parser_error ≡ none)
        × IsRead (lib.read_message raw) (hash_bytes lib raw) q.parsed)
      ⊎ ((e : Text) × (q.parser_status ≡ "failed")
          × (q.parser_error ≡ some e)
          × IsFallback (hash_bytes lib raw) e q.parsed)

  prepare_parsed-IsPrepared :
      (laws : IsLawful lib) (now : ℤ) (raw : Text) (r : ParsedMessage × Option Text)
      → parse_mime lib raw ≡ r
      → IsPrepared raw (prepare_parsed (parsing lib now) raw r)
  unfolding prepare_parsed parse_mime parsing
  prepare_parsed-IsPrepared laws now raw (p, none) same =
      let read = parse_opened-IsRead laws (hash_bytes lib raw) (lib.read_message raw) p same in
      inl (refl, refl, rw (with_hash-id (hash_bytes lib raw) p read.3.kept) read)
  prepare_parsed-IsPrepared laws now raw (p, some e) same =
      let stored = fallback_parsed_message-IsFallback now raw (hash_bytes lib raw) e in
      inr (
        e,
        refl,
        refl,
        rw
            (with_hash-id (hash_bytes lib raw)
              (fallback_parsed_message lib now raw (hash_bytes lib raw) e) stored.kept)
            stored,
      )

  pub prepare-IsPrepared :
      (laws : IsLawful lib) (now : ℤ) (raw : Text) → IsPrepared raw (prepare (parsing lib now) raw)
  unfolding prepare parsing
  prepare-IsPrepared laws now raw = prepare_parsed-IsPrepared laws now raw (parse_mime lib raw) refl

  IsPrepared-kept :
      (raw : Text) (q : Prepared) → IsPrepared raw q → q.parsed.content_hash ≡ hash_bytes lib raw
  IsPrepared-kept raw q (inl (status, error, read)) = read.3.kept
  IsPrepared-kept raw q (inr (e, status, error, stored)) = stored.kept

  -- The parser and its fallback keep the hash of the message.
  pub prepare-content_hash :
      (laws : IsLawful lib) (now : ℤ) (raw : Text)
      → (prepare (parsing lib now) raw).parsed.content_hash ≡ (parsing lib now).hash raw
  unfolding parsing
  prepare-content_hash laws now raw = IsPrepared-kept _ _ (prepare-IsPrepared laws now raw)
