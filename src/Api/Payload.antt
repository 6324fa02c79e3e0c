-- ===== src/Api/Payload.antt =====
-- `build_payload`: the JSON body of a send request.
pub mod Body
pub mod Accepted
use odoo_cloudflare_email.Prelude.{Option, none, some, List, [], ◌∷◌, map}
use mathlib.Core.Option
use odoo_cloudflare_email.Text.{Text, Bytes, codes, utf8}
use odoo_cloudflare_email.Text.Dict.{Dict}
use odoo_cloudflare_email.Json.{Json, str, arr, obj, of_items, Fields, end, field}
use odoo_cloudflare_email.Json.Dumps.{dumps}
use odoo_cloudflare_email.Errors.{Result, ok, raise, no_from, no_body, ◌>>=◌}
use odoo_cloudflare_email.Api.Host.{Host}
use odoo_cloudflare_email.Api.Mime.{header, or_empty, EmailMessage}
use odoo_cloudflare_email.Api.Recipients.{Address, address_of, Recipients, split_recipients}
use odoo_cloudflare_email.Api.Headers.{passthrough_headers}
use odoo_cloudflare_email.Api.Content.{Attachment, Content, extract_content}

-- The dict `payload`: `none` and the empty list stand for a key that is left out.
pub record Payload : Type 0 where
  pub from : Address
  pub recipients : Recipients
  pub subject : Text
  pub reply_to : Option Address
  pub content : Content
  pub headers : Dict

abbrev first_address : List (Text × Text) → Option Address
first_address [] = none
first_address (pair ∷ rest) = some (address_of pair)

module _ (h : Host) where
  unfoldable pub sender : EmailMessage → Result Address
  sender message =
      elim (first_address
        (h.email_split_tuples (or_empty (header h (codes "From") message.headers)))) [
          | none ↦ raise no_from
          | some a ↦ ok a
        ]

  unfoldable pub some_body : EmailMessage → Result Content
  some_body message =
      let content = extract_content h message.body in
      elim (content.text) [
        | some t ↦ ok content
        | none ↦ elim (content.html) [ some t ↦ ok content | none ↦ raise no_body ]
      ]

  unfoldable pub build_payload : EmailMessage → List Text → Result Payload
  unfolding sender some_body
  build_payload message smtp_to_list = do
    from ← sender message
    recipients ← split_recipients h message.headers smtp_to_list
    content ← some_body message
    headers ← passthrough_headers h message.headers
    ok (record {
      from = from;
      recipients = recipients;
      subject = or_empty (header h (codes "Subject") message.headers);
      reply_to =
          first_address
            (h.email_split_tuples (or_empty (header h (codes "Reply-To") message.headers)));
      content = content;
      headers = headers;
    })

-- A key that may be left out.
abbrev pub optional : Text → Option Json → Fields → Fields
optional key none fs = fs
optional key (some v) fs = field key v fs

abbrev pub address_json : Address → Json
address_json a =
    obj (
      field (codes "address") (str a.address) (optional (codes "name") (Option.map str a.name) end))

abbrev pub when_filled {ℓ} : {A : Type ℓ} → List A → Json → Option Json
when_filled [] v = none
when_filled (x ∷ xs) v = some v

abbrev pub addresses_json : List Address → Json
addresses_json as' = arr (of_items (map address_json as'))

abbrev pub attachment_json : Attachment → Json
attachment_json a = obj (
    field (codes "content") (str a.content) (
      field (codes "filename") (str a.filename) (
        field (codes "type") (str a.type) (
          field (codes "disposition") (str a.disposition)
            (optional (codes "content_id") (Option.map str a.content_id) end)))))

abbrev pub headers_fields : Dict → Fields
headers_fields [] = end
headers_fields ((name, value) ∷ d) = field name (str value) (headers_fields d)

-- The keys in the order in which the code writes them.
unfoldable pub payload_json : Payload → Json
payload_json p = obj (
    field (codes "from") (address_json p.from) (
      field (codes "to") (addresses_json p.recipients.to) (
        field (codes "subject") (str p.subject) (
          optional (codes "cc") (when_filled p.recipients.cc (addresses_json p.recipients.cc)) (
            optional (codes "bcc") (when_filled p.recipients.bcc (addresses_json p.recipients.bcc))
              (optional (codes "reply_to") (Option.map address_json p.reply_to) (
                optional (codes "text") (Option.map str p.content.text) (
                  optional (codes "html") (Option.map str p.content.html) (
                    optional (codes "headers")
                      (when_filled p.headers (obj (headers_fields p.headers)))
                      (optional (codes "attachments")
                        (when_filled p.content.attachments
                          (arr (of_items (map attachment_json p.content.attachments))))
                        end))))))))))

-- `json.dumps(payload, ensure_ascii=False).encode("utf-8")`.
unfoldable pub encode_body : Payload → Bytes
unfolding payload_json dumps utf8
encode_body p = utf8 (dumps (payload_json p))
