-- ===== src/Api/Payload/Body.antt =====
-- What the receiver reads of a body.
use mathlib.Core.Option
use odoo_cloudflare_email.Prelude.{◌≡◌, ap, ◌∙◌, Option, none, some, List, [], ◌∷◌, map}
use odoo_cloudflare_email.Text.{Text, Bytes, codes}
use odoo_cloudflare_email.Text.Dict.{Dict}
use odoo_cloudflare_email.Text.Utf8.{decode_utf8, decode_utf8-utf8}
use odoo_cloudflare_email.Json.{Json, str, of_items, Fields, end}
use odoo_cloudflare_email.Json.Dumps.{dumps}
use odoo_cloudflare_email.Json.Loads.{loads}
use odoo_cloudflare_email.Json.Loads.Codes.{HasCodes, dumps-IsCodes}
use odoo_cloudflare_email.Json.Loads.Steps.{IsNumberless, AreNumberless, HaveNumberless}
use odoo_cloudflare_email.Json.Loads.RoundTrip.{loads-dumps}
use odoo_cloudflare_email.Api.Recipients.{Address}
use odoo_cloudflare_email.Api.Content.{Attachment}
use odoo_cloudflare_email.Api.Payload.{
  Payload, optional, address_json, when_filled, addresses_json, attachment_json, headers_fields,
  payload_json, encode_body,
}

-- The receiver decodes the bytes and reads the text.
abbrev read_text : Option Text → Option Json
read_text none = none
read_text (some s) = loads s

abbrev pub read_body : Bytes → Option Json
read_body body = read_text (decode_utf8 body)

-- A key that may be left out, with a value without numbers.
abbrev Maybe : Option Json → Type 0
Maybe none = Unit
Maybe (some v) = IsNumberless v

optional-HaveNumberless :
    (key : Text) (o : Option Json) (fs : Fields)
    → Maybe o
    → HaveNumberless fs
    → HaveNumberless (optional key o fs)
unfolding IsNumberless
optional-HaveNumberless key none fs p q = q
optional-HaveNumberless key (some v) fs p q = (p, q)

str-Maybe : (o : Option Text) → Maybe (Option.map str o)
unfolding IsNumberless
str-Maybe none = tt
str-Maybe (some s) = tt

when_filled-Maybe {ℓ} :
    {A : Type ℓ} (xs : List A) (v : Json) → IsNumberless v → Maybe (when_filled xs v)
when_filled-Maybe [] v p = tt
when_filled-Maybe (x ∷ xs) v p = p

of_items-AreNumberless {ℓ} :
    {A : Type ℓ} (f : A → Json)
    → ((a : A) → IsNumberless (f a))
    → (xs : List A) → AreNumberless (of_items (map f xs))
unfolding IsNumberless
of_items-AreNumberless f p [] = tt
of_items-AreNumberless f p (x ∷ xs) = (p x, of_items-AreNumberless f p xs)

address_json-IsNumberless : (a : Address) → IsNumberless (address_json a)
unfolding IsNumberless
address_json-IsNumberless a =
    (tt, optional-HaveNumberless (codes "name") (Option.map str a.name) end (str-Maybe a.name) tt)

attachment_json-IsNumberless : (a : Attachment) → IsNumberless (attachment_json a)
unfolding IsNumberless
attachment_json-IsNumberless a = (
  tt,
  (tt, (tt, (tt, optional-HaveNumberless (codes "content_id") _ end (str-Maybe a.content_id) tt))),
)

headers_fields-HaveNumberless : (d : Dict) → HaveNumberless (headers_fields d)
unfolding IsNumberless
headers_fields-HaveNumberless [] = tt
headers_fields-HaveNumberless ((name, value) ∷ d) = (tt, headers_fields-HaveNumberless d)

addresses_json-IsNumberless : (as' : List Address) → IsNumberless (addresses_json as')
unfolding IsNumberless
addresses_json-IsNumberless as' = of_items-AreNumberless address_json address_json-IsNumberless as'

reply_to-Maybe : (o : Option Address) → Maybe (Option.map address_json o)
reply_to-Maybe none = tt
reply_to-Maybe (some a) = address_json-IsNumberless a

payload_json-IsNumberless : (p : Payload) → IsNumberless (payload_json p)
unfolding payload_json IsNumberless
payload_json-IsNumberless p = (
  address_json-IsNumberless p.from,
  (
    addresses_json-IsNumberless p.recipients.to,
    (
      tt,
      optional-HaveNumberless (codes "cc") _ _
          (when_filled-Maybe p.recipients.cc _ (addresses_json-IsNumberless p.recipients.cc))
          (optional-HaveNumberless (codes "bcc") _ _
            (when_filled-Maybe p.recipients.bcc _ (addresses_json-IsNumberless p.recipients.bcc))
            (optional-HaveNumberless (codes "reply_to") _ _ (reply_to-Maybe p.reply_to) (
              optional-HaveNumberless (codes "text") _ _ (str-Maybe p.content.text) (
                optional-HaveNumberless (codes "html") _ _ (str-Maybe p.content.html) (
                  optional-HaveNumberless (codes "headers") _ _
                    (when_filled-Maybe p.headers _ (headers_fields-HaveNumberless p.headers))
                    (optional-HaveNumberless (codes "attachments") _ _
                      (when_filled-Maybe p.content.attachments _ (
                        of_items-AreNumberless attachment_json attachment_json-IsNumberless
                          p.content.attachments))
                      tt)))))),
    ),
  ),
)

-- The bytes that are posted for a payload whose strings hold code points only decode as UTF-8 and as
-- JSON to that payload: to the same keys in the same order, with the same values.
pub read_body-encode_body :
    (p : Payload) → HasCodes (payload_json p) → read_body (encode_body p) ≡ some (payload_json p)
unfolding encode_body
read_body-encode_body p valid =
    ap read_text (decode_utf8-utf8 (dumps (payload_json p)) (dumps-IsCodes (payload_json p) valid))
    ∙ loads-dumps (payload_json p) (payload_json-IsNumberless p)
