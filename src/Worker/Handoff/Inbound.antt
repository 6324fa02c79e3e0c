-- ===== src/Worker/Handoff/Inbound.antt =====
-- One message from the Worker's handler for mail to Odoo's `message_process`.
use odoo_cloudflare_email.Prelude.{
  ℕ, ◌≤◌, ◌<◌, ◌≡◌, ◌≢◌, refl, ◌∙◌, true, Option, some, [], ℤ, pos, ◌-ℤ◌, abs, Option-cases, inl,
  inr,
}
use odoo_cloudflare_email.Text.{Text, Bytes, text_eq}
use odoo_cloudflare_email.Text.Dict.{lookup}
use odoo_cloudflare_email.Text.Number.{decimal}
use odoo_cloudflare_email.Errors.{ok}
use odoo_cloudflare_email.Api.Host.{Host}
use odoo_cloudflare_email.Fetchmail.Signature.{signature_tolerance, verify_signature}
use odoo_cloudflare_email.Fetchmail.Envelope.{prepare_message}
use odoo_cloudflare_email.Fetchmail.Server.{Server, find_by_key}
use odoo_cloudflare_email.Fetchmail.Inbound.{
  Request, Cursor, MessageProcess, inbound, inbound_on, process_inbound, process_message, settle,
}
use odoo_cloudflare_email.Worker.Strings.{ascii_value}
use odoo_cloudflare_email.Worker.Sign.{unix_seconds, sign_body}
use odoo_cloudflare_email.Worker.Config.{WorkerConfig}
use odoo_cloudflare_email.Worker.Inbox.{EnqueueInput, InboxRow}
use odoo_cloudflare_email.Worker.Attempt.{Delivery, delivery_headers, delivery_of}
use odoo_cloudflare_email.Worker.Email.{Put, stored, handle_email}
use odoo_cloudflare_email.Worker.Handoff.{request_of}
use odoo_cloudflare_email.Worker.Handoff.Prepared.{prepare_message-stored}
use odoo_cloudflare_email.Worker.Handoff.Signed.{IsHex, verify_signature-sign_body}
use odoo_cloudflare_email.Worker.Handoff.Email.{handle_email-IsStored}

module _ (hexdigest : Bytes → Bytes → Text) (version : Text) where
  -- The request that the webhook reads from an attempt.
  abbrev sent_request : WorkerConfig → InboxRow → Text → Text → Bytes → ℕ → Request
  sent_request config row from to body sent = record {
    id = some row.id;
    timestamp = some (decimal (unix_seconds sent));
    signature = some (sign_body hexdigest config.webhook_secret (unix_seconds sent) body);
    envelope_from = some from;
    envelope_to = some to;
    body = body;
  }

  request_of-headers :
      (config : WorkerConfig) (row : InboxRow) (from to : Text) (body : Bytes) (sent : ℕ)
      → request_of (record {
        url = config.inbound_url;
        headers = delivery_headers hexdigest version config row from to body sent;
        body = body;
      })
        ≡ sent_request config row from to body sent
  unfolding request_of delivery_headers lookup text_eq
  request_of-headers config row from to body sent = refl

  request_of-delivery_of :
      (config : WorkerConfig) (row : InboxRow) (body : Bytes) (sent : ℕ) (d : Delivery)
      → delivery_of hexdigest version config row body sent ≡ some d
      → (from to : Text) × (ascii_value row.envelope_from ≡ some from)
        × (ascii_value row.envelope_to ≡ some to)
        × (request_of d ≡ sent_request config row from to body sent)
  unfolding delivery_of
  request_of-delivery_of config row body sent d e =
      elim (Option-cases (ascii_value row.envelope_from)) [
        | inl raised ↦ absurd (cc (rw (raised, delivery_of) at e))
        | inr (from, good_from) ↦ elim (Option-cases (ascii_value row.envelope_to)) [
          | inl raised ↦ absurd (cc (rw (good_from, raised, delivery_of) at e))
          | inr (to, good_to) ↦
              let made : record {
                url = config.inbound_url;
                headers = delivery_headers hexdigest version config row from to body sent;
                body = body;
              }
                  ≡ d =
                cc (rw (good_from, delivery_of) at (rw (good_to, delivery_of) at e)) in
              (
                from,
                to,
                good_from,
                good_to,
                rw (← made) (request_of-headers config row from to body sent),
              )
        ]
      ]

module _ {R : Type 0} (h : Host) (hexdigest : Bytes → Bytes → Text) (unquote : Text → Text)
    (message_process : MessageProcess R) (key_prefix version : Text)
    (hex : (key message : Bytes) → IsHex (hexdigest key message))
    (unquotes : (s header : Text) → ascii_value s ≡ some header → unquote header ≡ s) where
  inbound-accepted :
      (key : Text) (r : Request) (now : ℤ) (date : ℕ) (cr : Cursor R) (server : Server)
      (message : Bytes)
      → find_by_key key cr.working.servers ≡ some server
      → verify_signature h hexdigest server.webhook_secret r.timestamp r.signature r.body now ≡ true
      → prepare_message unquote r.body r.envelope_from r.envelope_to ≡ ok message
      → inbound h hexdigest unquote message_process key r now date cr
        ≡ settle r.id (process_message message_process server date (ok message) cr.working) cr
  unfolding inbound inbound_on process_inbound
  inbound-accepted key r now date cr server message found accepted prepared =
      rw (found, inbound_on) (rw accepted (rw prepared refl))

  -- A message that the Worker's handler for mail stored and queued, sent by an attempt with
  -- the secret of the server that its key finds, and handled within 300 seconds: the webhook
  -- accepts the request, and gives `message_process` exactly the bytes that were stored, under
  -- the id of the row. HMAC is printed in lower-case hexadecimal, `unquote` undoes
  -- `asciiValue`, and the time in seconds has at most 13 digits.
  pub inbound-stored :
      (id : Text) (received_at : ℕ) (message_id : Option Text) (from to : Text) (raw : Bytes)
      (put : Put) (input : EnqueueInput) (config : WorkerConfig) (row : InboxRow) (sent : ℕ)
      (d : Delivery) (key : Text) (server : Server) (now : ℤ) (date : ℕ) (cr : Cursor R)
      → handle_email key_prefix id received_at message_id from to raw ≡ stored put input
      → row.envelope_from ≡ input.from
      → row.envelope_to ≡ input.to
      → delivery_of hexdigest version config row put.object sent ≡ some d
      → find_by_key key cr.working.servers ≡ some server
      → server.webhook_secret ≡ some config.webhook_secret
      → config.webhook_secret ≢ []
      → unix_seconds sent < 10000000000000
      → abs (now -ℤ pos (unix_seconds sent)) ≤ signature_tolerance
      → inbound h hexdigest unquote message_process key (request_of d) now date cr
        ≡ settle
            (some row.id)
            (process_message message_process server date (ok put.object) cr.working)
            cr
  inbound-stored id received_at message_id from to raw put input config row sent d key server now
        date cr received sender recipient made found secret filled small recent =
      let s =
        handle_email-IsStored key_prefix id received_at message_id from to raw put input received in
      let (from_header, to_header, good_from, good_to, read) =
        request_of-delivery_of hexdigest version config row put.object sent d made in
      let accepted =
        verify_signature-sign_body h hexdigest hex config.webhook_secret (unix_seconds sent)
          put.object now filled small recent in
      let prepared =
        prepare_message-stored unquote from to from_header to_header raw
          (unquotes row.envelope_from from_header good_from ∙ sender ∙ s.sender)
          (unquotes row.envelope_to to_header good_to ∙ recipient ∙ s.recipient) s.clean_sender
          s.clean_recipient in
      rw read (
        inbound-accepted key
          (sent_request hexdigest version config row from_header to_header put.object sent) now date
          cr server put.object found (rw secret accepted) (rw (s.object) prepared))
