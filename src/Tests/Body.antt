-- ===== src/Tests/Body.antt =====
-- A payload whose text has a quote, a line end and a letter of two bytes.
use odoo_cloudflare_email.Prelude.{◌≡◌, refl, ◌≤◌, length, none, some, [], ◌∷◌, arith}
use odoo_cloudflare_email.Text.{codes, utf8}
use odoo_cloudflare_email.Text.Utf8.{decode_utf8}
use odoo_cloudflare_email.Json.Loads.{loads}
use odoo_cloudflare_email.Json.Loads.Codes.{HasCodes, ascii}
use odoo_cloudflare_email.Errors.{ok}
use odoo_cloudflare_email.Samples.{ascii_host}
use odoo_cloudflare_email.Tests.Network.{outbound, start, flaky, note}
use odoo_cloudflare_email.Api.Session.{max_body_bytes}
use odoo_cloudflare_email.Api.Session.Send.{send_message}
use odoo_cloudflare_email.Api.Session.Posted.{IsPosted, send_message-IsPosted}
use odoo_cloudflare_email.Api.Payload.{Payload, build_payload, payload_json, encode_body}
use odoo_cloudflare_email.Api.Payload.Accepted.{IsAcceptable, build_payload-IsAcceptable}
use odoo_cloudflare_email.Api.Payload.Body.{read_body, read_body-encode_body}

abbrev payload : Payload
payload = record {
  from = record { address = codes "me@x"; name = none };
  recipients = record {
    to = record { address = codes "you@x"; name = none } ∷ [];
    cc = [];
    bcc = [];
  };
  subject = codes "Hi";
  reply_to = none;
  content = record { text = some (codes "\"é\"\n"); html = none; attachments = [] };
  headers = [];
}

body_test :
    encode_body payload
    ≡ utf8 (
        codes
          "{\"from\": {\"address\": \"me@x\"}, \"to\": [{\"address\": \"you@x\"}], \"subject\": \"Hi\", \"text\": \"\\\"é\\\"\\n\"}")
unfolding encode_body
body_test = refl

read_test : read_body (encode_body payload) ≡ some (payload_json payload)
unfolding encode_body decode_utf8 loads
read_test = refl

blank_test : loads (codes "[null, {\"a\": [], \"b\": true}] ") ≡ none
unfolding loads
blank_test = refl

payload-HasCodes : HasCodes (payload_json payload)
unfolding payload_json HasCodes
payload-HasCodes = (
  ascii (codes "from") refl,
  (
    (ascii (codes "address") refl, (ascii (codes "me@x") refl, tt)),
    (
      ascii (codes "to") refl,
      (
        ((ascii (codes "address") refl, (ascii (codes "you@x") refl, tt)), tt),
        (
          ascii (codes "subject") refl,
          (
            ascii (codes "Hi") refl,
            (
              ascii (codes "text") refl,
              ((omega arith, (omega arith, (omega arith, (omega arith, tt)))), tt),
            ),
          ),
        ),
      ),
    ),
  ),
)

read_body-encode_body_example : read_body (encode_body payload) ≡ some (payload_json payload)
read_body-encode_body_example = read_body-encode_body payload payload-HasCodes

abbrev note_payload : Payload
note_payload = record {
  from = record { address = codes "me@x"; name = none };
  recipients = record {
    to = record { address = codes "you@x"; name = none } ∷ [];
    cc = [];
    bcc = [];
  };
  subject = [];
  reply_to = none;
  content = record { text = some (codes "hi"); html = none; attachments = [] };
  headers = [];
}

note-built : build_payload ascii_host note (codes "you@x" ∷ []) ≡ ok note_payload
unfolding outbound
note-built = refl

note-HasCodes : HasCodes (payload_json note_payload)
unfolding payload_json HasCodes
note-HasCodes = (
  ascii (codes "from") refl,
  (
    (ascii (codes "address") refl, (ascii (codes "me@x") refl, tt)),
    (
      ascii (codes "to") refl,
      (
        ((ascii (codes "address") refl, (ascii (codes "you@x") refl, tt)), tt),
        (
          ascii (codes "subject") refl,
          (tt, (ascii (codes "text") refl, (ascii (codes "hi") refl, tt))),
        ),
      ),
    ),
  ),
)

note-fits : length (encode_body note_payload) ≤ max_body_bytes
unfolding encode_body
note-fits = omega arith

send_message-IsPosted_example :
    IsPosted note_payload start (send_message ascii_host flaky note (codes "you@x" ∷ []) start).1
send_message-IsPosted_example =
    send_message-IsPosted ascii_host flaky note (codes "you@x" ∷ []) note_payload start refl
      note-built note-HasCodes note-fits

build_payload-IsAcceptable_example : IsAcceptable ascii_host note (codes "you@x" ∷ []) note_payload
build_payload-IsAcceptable_example =
    build_payload-IsAcceptable ascii_host note (codes "you@x" ∷ []) note_payload note-built
