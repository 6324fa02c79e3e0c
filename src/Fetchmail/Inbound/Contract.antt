-- ===== src/Fetchmail/Inbound/Contract.antt =====
-- What a request to the webhook can change.
use odoo_cloudflare_email.Prelude.{
  ℕ, ◌≡◌, ◌≢◌, ◌⊎◌, refl, true, Option, some, [], arith, Bool-cases, Option-cases, inl, inr, ℤ,
}
use odoo_cloudflare_email.Text.{Text, Bytes}
use odoo_cloudflare_email.Errors.{Exception, value_error, ok, err, Result-cases}
use odoo_cloudflare_email.Api.Host.{Host}
use odoo_cloudflare_email.Api.Mime.{or_empty}
use odoo_cloudflare_email.Fetchmail.Signature.{verify_signature}
use odoo_cloudflare_email.Fetchmail.Signature.Spec.{IsSigned, verify_signature-IsSigned_iff}
use odoo_cloudflare_email.Fetchmail.Envelope.{prepare_message}
use odoo_cloudflare_email.Fetchmail.Server.{Server, find_by_key, write_date}
use odoo_cloudflare_email.Fetchmail.Server.Lookup.{
  IsLookup, find_by_key-IsLookup, IsLookup-find_by_key,
}
use odoo_cloudflare_email.Fetchmail.Inbound.{
  Processed, posted, invalid, concurrency, crashed, Request, Handled, answered, reraised, Database,
  Cursor, MessageProcess, raised_as, call_of, dated, process_message, settle, process_inbound,
  inbound_on, inbound, respond_error, respond_delivered, rollback,
}

-- The transaction as the handler finds it.
abbrev pub begin : {R : Type 0} → Database R → Cursor R
begin db = record { committed = db; working = db }

module _ {R : Type 0} (h : Host) (hexdigest : Bytes → Bytes → Text) (unquote : Text → Text)
    (message_process : MessageProcess R) (key : Text) (r : Request) (now : ℤ) (date : ℕ)
    (db : Database R) where
  -- The server that the key finds, whose secret signed the request.
  pub record IsAuthentic (server : Server) : Type 0 where
    pub found : IsLookup key db.servers (some server)
    pub secret_filled : or_empty server.webhook_secret ≢ []
    pub timestamp_filled : or_empty r.timestamp ≢ []
    pub signature_filled : or_empty r.signature ≢ []
    pub signed :
        IsSigned h hexdigest
          (or_empty server.webhook_secret)
          (or_empty r.timestamp)
          (or_empty r.signature)
          r.body
          now

  -- The message went to `message_process` once, for the server that the request is authentic to,
  -- and this is how that ended.
  pub record IsProcessed (outcome : Processed × Database R) : Type 0 where
    pub server : Server
    pub authentic : IsAuthentic server
    pub message : Bytes
    pub prepared : prepare_message unquote r.body r.envelope_from r.envelope_to ≡ ok message
    pub ended : message_process (call_of server message) db ≡ outcome

  -- The database of a delivery: that of `message_process`, with the server's date.
  pub record IsDelivery (cr : Cursor R) : Type 0 where
    pub thread_id : Option ℕ
    pub after : Database R
    pub processed : IsProcessed (posted thread_id, after)
    pub working :
        cr.working ≡ record after { servers = write_date processed.server.id date after.servers }

  -- What a request may have done.
  abbrev pub IsSafe : Handled → Cursor R → Type 0
  IsSafe (answered response) cr =
      (response.status ≡ 200) × (cr.committed ≡ db) × IsDelivery cr
      ⊎ (response.status ≢ 200) × (cr ≡ begin db)
  IsSafe reraised cr = (cr.committed ≡ db) × (after : Database R) × IsProcessed (concurrency, after)

  settle-IsSafe :
      (server : Server) (message : Bytes) (outcome : Processed × Database R)
      → IsAuthentic server
      → prepare_message unquote r.body r.envelope_from r.envelope_to ≡ ok message
      → message_process (call_of server message) db ≡ outcome
      → IsSafe
          (settle r.id (dated server.id date outcome) (begin db)).0
          (settle r.id (dated server.id date outcome) (begin db)).1
  unfolding settle dated respond_error respond_delivered rollback
  settle-IsSafe server message (posted thread_id, after) a p e = inl (
    refl,
    refl,
    record {
      thread_id = thread_id;
      after = after;
      processed = record {
        server = server;
        authentic = a;
        message = message;
        prepared = p;
        ended = e;
      };
      working = refl;
    },
  )
  settle-IsSafe server message (invalid text, after) a p e = inr (omega arith, refl)
  settle-IsSafe server message (concurrency, after) a p e = (
    refl,
    after,
    record { server = server; authentic = a; message = message; prepared = p; ended = e },
  )
  settle-IsSafe server message (crashed, after) a p e = inr (omega arith, refl)

  -- A message that is not prepared is answered with an error.
  unprepared-IsSafe :
      (server : Server) (e : Exception)
      → IsSafe
          (settle r.id (process_message message_process server date (err e) db) (begin db)).0
          (settle r.id (process_message message_process server date (err e) db) (begin db)).1
  unfolding process_message settle raised_as respond_error rollback
  unprepared-IsSafe server (value_error text) = inr (omega arith, refl)
  unprepared-IsSafe server (Exception.cloudflare e) = inr (omega arith, refl)
  unprepared-IsSafe server (Exception.user_error e) = inr (omega arith, refl)
  unprepared-IsSafe server Exception.type_error = inr (omega arith, refl)
  unprepared-IsSafe server Exception.key_error = inr (omega arith, refl)
  unprepared-IsSafe server Exception.attribute_error = inr (omega arith, refl)

  processed-IsSafe :
      (server : Server)
      → IsAuthentic server
      → IsSafe
          (settle r.id
            (process_inbound h hexdigest unquote message_process server r date db)
            (begin db)).0
          (settle r.id
            (process_inbound h hexdigest unquote message_process server r date db)
            (begin db)).1
  unfolding process_inbound process_message
  processed-IsSafe server a =
      elim (Result-cases (prepare_message unquote r.body r.envelope_from r.envelope_to)) [
        | inl (message, p) ↦ rw p (settle-IsSafe server message _ a p refl)
        | inr (e, p) ↦ rw p (unfold process_message in unprepared-IsSafe server e)
      ]

  pub find_by_key-IsAuthentic :
      (server : Server)
      → find_by_key key db.servers ≡ some server
      → verify_signature h hexdigest server.webhook_secret r.timestamp r.signature r.body now ≡ true
      → IsAuthentic server
  find_by_key-IsAuthentic server e v =
      let (s, t, g, d) =
        (verify_signature-IsSigned_iff h hexdigest server.webhook_secret r.timestamp r.signature
            r.body now).0
          v in
      record {
        found = rw e at (find_by_key-IsLookup key db.servers);
        secret_filled = s;
        timestamp_filled = t;
        signature_filled = g;
        signed = d;
      }

  pub IsAuthentic-facts :
      (server : Server)
      → IsAuthentic server
      → (find_by_key key db.servers ≡ some server)
        × (verify_signature h hexdigest server.webhook_secret r.timestamp r.signature r.body now
            ≡ true)
  IsAuthentic-facts server a = (
    IsLookup-find_by_key key db.servers server a.found,
    (verify_signature-IsSigned_iff h hexdigest server.webhook_secret r.timestamp r.signature r.body
          now).1
        (a.secret_filled, a.timestamp_filled, a.signature_filled, a.signed),
  )

  -- A request that is not answered with 200 leaves the database as it was, unless it ends in a
  -- concurrency error. A delivery, and a concurrency error, come of a request that a confirmed
  -- server's secret signed in time, whose message went to `message_process`. A delivery leaves what
  -- `message_process` made of the database, with the server's date written. The handler itself
  -- commits nothing.
  pub inbound-IsSafe :
      IsSafe
        (inbound h hexdigest unquote message_process key r now date (begin db)).0
        (inbound h hexdigest unquote message_process key r now date (begin db)).1
  unfolding inbound inbound_on respond_error
  inbound-IsSafe = elim (Option-cases (find_by_key key db.servers)) [
    | inl e ↦ rw e (inr (omega arith, refl))
    | inr (server, e) ↦
        elim (Bool-cases
          (verify_signature h hexdigest server.webhook_secret r.timestamp r.signature r.body now)) [
            | inl v ↦ rw (e, v) (processed-IsSafe server (find_by_key-IsAuthentic server e v))
            | inr v ↦ rw (e, v) (inr (omega arith, refl))
          ]
  ]
