-- ===== src/Tests/Inbound.antt =====
-- Requests to the webhook: a server, its secret with a digest that is easy to read, and a mailbox
-- that keeps what it is given.
use odoo_cloudflare_email.Prelude.{
  ◌≡◌, abs, ◌-ℤ◌, ◌≤◌, ◌*◌, ◌≢◌, ◌↔◌, ◌+◌, ◌<◌, ◌%◌, refl, true, false, none, some, List, [], ◌∷◌,
  ◌++◌, map, length, pos,
}
use odoo_cloudflare_email.Text.{Text, Bytes, codes, strip, utf8, text_eq}
use odoo_cloudflare_email.Text.Number.{parse_int}
use odoo_cloudflare_email.Samples.{ascii_host}
use odoo_cloudflare_email.Api.Mime.{or_empty}
use odoo_cloudflare_email.Fetchmail.Signature.{verify_signature, signature_tolerance}
use odoo_cloudflare_email.Fetchmail.Signature.Spec.{IsSigned, verify_signature-IsSigned_iff}
use odoo_cloudflare_email.Fetchmail.Signature.Replay.{verify_signature-replay}
use odoo_cloudflare_email.Fetchmail.Server.{
  Server, cloudflare_type, done_state, find_by_key, is_match,
}
use odoo_cloudflare_email.Fetchmail.Envelope.{prepare_message}
use odoo_cloudflare_email.Fetchmail.Server.Lookup.{IsLookup, find_by_key-IsLookup}
use odoo_cloudflare_email.Fetchmail.Inbound.{
  Processed, posted, crashed, Request, Handled, answered, reraised, Database, Cursor,
  MessageProcess, inbound, respond_delivered, respond_error,
}
use odoo_cloudflare_email.Fetchmail.Inbound.Once.{Mail, Try, deliver, IsOnce, deliver-IsOnce}
use odoo_cloudflare_email.Fetchmail.Inbound.Retries.{inbound-outcome_of_iff}
use odoo_cloudflare_email.Worker.Backoff
use odoo_cloudflare_email.Worker.Backoff.{classify_status}
use odoo_cloudflare_email.Worker.Config.{WorkerConfig}
use odoo_cloudflare_email.Worker.Attempt.{outcome_of}
use odoo_cloudflare_email.Fetchmail.Inbound.Contract.{begin, IsSafe, IsProcessed, inbound-IsSafe}

-- The last decimal digit of each byte, in place of a hash.
abbrev digits : Bytes → Bytes → Text
digits key bytes = map (λ b. b'0' + b % 10) (key ++ bytes)

abbrev pub worker_server : Server
worker_server = record {
  id = 7;
  active = true;
  server_type = cloudflare_type;
  state = done_state;
  webhook_key = some (codes "key");
  webhook_secret = some (codes "secret");
  configuration = none;
  object_model = none;
  original = false;
  attach = true;
  date = none;
}

abbrev pub mail : Text
mail = codes "Subject: hi\r\n\r\nhi"

-- A request at the time 1000, without its signature and with it.
abbrev unsigned_request : Request
unsigned_request = record {
  id = some (codes "w1");
  timestamp = some (codes "1000");
  signature = none;
  envelope_from = some [];
  envelope_to = some (codes "a@x.org");
  body = mail;
}

abbrev request : Request
request = record unsigned_request {
  signature = some (codes "v1=" ++ digits (codes "secret") (codes "1000." ++ mail));
}

abbrev pub mailbox : MessageProcess (List Bytes)
mailbox call db =
    (posted (some (length db.records)), record db { records = call.message ∷ db.records })

abbrev pub database : Database (List Bytes)
database = record { servers = worker_server ∷ []; records = [] }

find_by_key-IsLookup_example :
    IsLookup (codes "key") (worker_server ∷ []) (find_by_key (codes "key") (worker_server ∷ []))
find_by_key-IsLookup_example = find_by_key-IsLookup (codes "key") (worker_server ∷ [])

verify_signature-IsSigned_iff_example :
    (verify_signature ascii_host digits worker_server.webhook_secret request.timestamp
        request.signature mail
        (pos 1200)
      ≡ true)
    ↔ ((codes "secret" ≢ [])
        × (codes "1000" ≢ [])
        × (or_empty request.signature ≢ [])
        × IsSigned ascii_host digits
            (codes "secret")
            (codes "1000")
            (or_empty request.signature)
            mail
            (pos 1200))
verify_signature-IsSigned_iff_example =
    verify_signature-IsSigned_iff ascii_host digits worker_server.webhook_secret request.timestamp
      request.signature mail (pos 1200)

accepted :
    verify_signature ascii_host digits worker_server.webhook_secret request.timestamp
      request.signature mail
      (pos 1200)
    ≡ true
unfolding verify_signature strip parse_int text_eq utf8
accepted = refl

-- What becomes of the request, 200 seconds later.
abbrev handled : Handled × Cursor (List Bytes)
handled =
    inbound ascii_host digits (λ t. t) mailbox (codes "key") request (pos 1200) 5 (begin database)

delivered : handled.0 ≡ answered (respond_delivered (some 0) (some (codes "w1")))
unfolding inbound verify_signature strip find_by_key is_match text_eq parse_int utf8 prepare_message
delivered = refl

inbound-IsSafe_example :
    IsSafe ascii_host digits
      (λ t. t)
      mailbox
      (codes "key")
      request
      (pos 1200)
      5
      database
      handled.0
      handled.1
inbound-IsSafe_example =
    inbound-IsSafe ascii_host digits (λ t. t) mailbox (codes "key") request (pos 1200) 5 database

-- A mailbox that breaks down, and what becomes of the request there.
abbrev broken : MessageProcess (List Bytes)
broken call db = (crashed, db)

broken_answer :
    (inbound ascii_host digits
      (λ t. t)
      broken
      (codes "key")
      request
      (pos 1200)
      5
      (begin database)).0
    ≡ answered (respond_error 500 (codes "internal error"))
unfolding inbound verify_signature strip find_by_key is_match text_eq parse_int utf8 prepare_message
broken_answer = refl

abbrev config : WorkerConfig
config = record {
  inbound_url = codes "https://odoo.example.com/inbound/key";
  webhook_secret = codes "secret";
  access = none;
  backoff_seconds = 60 ∷ [];
  max_attempts = 2;
  retention_ms = 1000;
  delivery_delay_ms = 0;
}

inbound-outcome_of_iff_example :
    (outcome_of config 1 (classify_status (respond_error 500 (codes "internal error")).status)
      ≡ Backoff.retry)
    ↔ ((1 < 2)
        × ((outcome : Processed × Database (List Bytes)) × IsProcessed ascii_host digits
              (λ t. t)
              broken
              (codes "key")
              request
              (pos 1200)
              5
              database
              outcome
            × (outcome.0 ≡ crashed)))
inbound-outcome_of_iff_example =
    inbound-outcome_of_iff ascii_host digits (λ t. t) broken (codes "key") request (pos 1200) 5
      database config 1 (respond_error 500 (codes "internal error")) broken_answer

accepted_early :
    verify_signature ascii_host digits worker_server.webhook_secret request.timestamp
      request.signature mail
      (pos 700)
    ≡ true
unfolding verify_signature strip parse_int text_eq utf8
accepted_early = refl

verify_signature-replay_example : abs (pos 700 -ℤ pos 1200) ≤ 2 * signature_tolerance
verify_signature-replay_example =
    verify_signature-replay ascii_host digits worker_server.webhook_secret request.timestamp
      request.signature worker_server.webhook_secret request.signature mail mail (pos 700)
      (pos 1200) accepted_early accepted

-- The framework: a commit, or a rollback.
abbrev close_request : Handled → Cursor (List Bytes) → Database (List Bytes)
close_request (answered response) cr = cr.working
close_request reraised cr = cr.committed

abbrev note : Mail
note = record {
  id = request.id;
  envelope_from = request.envelope_from;
  envelope_to = request.envelope_to;
  body = request.body;
}

abbrev tries : List Try
tries =
    record {
      timestamp = request.timestamp;
      signature = request.signature;
      now = pos 1200;
      date = 5;
      runs_again = true;
    }
    ∷ record {
      timestamp = request.timestamp;
      signature = request.signature;
      now = pos 1210;
      date = 6;
      runs_again = false;
    }
    ∷ []

tries_test :
    deliver ascii_host digits (λ t. t) mailbox (codes "key") close_request note tries database
    ≡ (true, handled.1.working)
unfolding deliver inbound verify_signature strip find_by_key is_match text_eq parse_int utf8
    prepare_message
tries_test = refl

deliver-IsOnce_example :
    IsOnce ascii_host digits
      (λ t. t)
      mailbox
      (codes "key")
      close_request
      note
      tries
      database
      (deliver ascii_host digits (λ t. t) mailbox (codes "key") close_request note tries database)
deliver-IsOnce_example =
    deliver-IsOnce ascii_host digits (λ t. t) mailbox (codes "key") close_request note
      (λ r cr. refl) (λ cr. refl) tries database
