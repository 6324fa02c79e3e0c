-- ===== src/Api/Payload/Accepted.antt =====
-- What every payload that is built holds to.
use odoo_cloudflare_email.Prelude.{
  ◌≡◌, ap, sym, ◌∙◌, ◌⊎◌, inl, inr, false, Option, none, some, List, All, is_empty, Bool-cases,
  Option-cases,
}
use odoo_cloudflare_email.Text.{Text, strip, codes}
use odoo_cloudflare_email.Text.Dict.{dict_keys}
use odoo_cloudflare_email.Errors.{ok, Result-cases, ok_injective}
use odoo_cloudflare_email.Api.Host.{Host}
use odoo_cloudflare_email.Api.Mime.{EmailMessage, PartInfo}
use odoo_cloudflare_email.Api.Recipients.{split_recipients}
use odoo_cloudflare_email.Api.Recipients.Partition.{IsPartition, split_recipients-IsPartition}
use odoo_cloudflare_email.Api.Recipients.Visible.{IsVisible, split_recipients-IsVisible}
use odoo_cloudflare_email.Api.Headers.{passthrough_headers}
use odoo_cloudflare_email.Api.Headers.Limits.{IsWithinLimits, passthrough_headers-IsWithinLimits}
use odoo_cloudflare_email.Api.Headers.Names.{IsPermitted, passthrough_headers-names}
use odoo_cloudflare_email.Api.Content.{Content, filled, get_body, extract_content}
use odoo_cloudflare_email.Api.Payload.{Payload, sender, some_body, build_payload}

-- A body that is shown is more than blanks.
abbrev pub IsShown : Option Text → Type 0
IsShown none = Unit
IsShown (some t) = is_empty (strip t) ≡ false

filled-IsShown : (o : Option PartInfo) → IsShown (filled o)
unfolding filled
filled-IsShown none = tt
filled-IsShown (some i) = elim (Bool-cases (is_empty (strip i.content))) [
  | inl e ↦ rw e tt
  | inr e ↦ rw e e
]

module _ (h : Host) where
  pub record IsAcceptable (message : EmailMessage) (smtp_to_list : List Text) (p : Payload)
      : Type 0 where
    pub partition : IsPartition h smtp_to_list p.recipients
    pub visible : IsVisible h message.headers p.recipients
    pub some_text : (t : Text) × ((p.content.text ≡ some t) ⊎ (p.content.html ≡ some t))
    pub text : IsShown p.content.text
    pub html : IsShown p.content.html
    pub limits : IsWithinLimits p.headers
    pub permitted : All (λ key. IsPermitted h (h.lower key)) (dict_keys p.headers)

  some_body-facts :
      (message : EmailMessage) (c : Content)
      → some_body h message ≡ ok c
      → (c ≡ extract_content h message.body) × (t : Text) × ((c.text ≡ some t) ⊎ (c.html ≡ some t))
  unfolding some_body
  some_body-facts message c e = elim (Option-cases ((extract_content h message.body).text)) [
    | inr (t, a) ↦
        let same = ok_injective (rw (a, some_body) at e) in
        (sym same, t, inl (ap (λ (d : Content). d.text) (sym same) ∙ a))
    | inl a ↦ elim (Option-cases ((extract_content h message.body).html)) [
      | inr (t, b) ↦
          let same = ok_injective (rw (b, some_body) at (rw (a, some_body) at e)) in
          (sym same, t, inr (ap (λ (d : Content). d.html) (sym same) ∙ b))
      | inl b ↦ cc (rw (b, some_body) at (rw (a, some_body) at e))
    ]
  ]

  -- The parts of a payload, each as its own function gave it.
  parts-IsAcceptable :
      (message : EmailMessage) (smtp_to_list : List Text) (p : Payload)
      → split_recipients h message.headers smtp_to_list ≡ ok p.recipients
      → some_body h message ≡ ok p.content
      → passthrough_headers h message.headers ≡ ok p.headers
      → IsAcceptable message smtp_to_list p
  unfolding extract_content
  parts-IsAcceptable message smtp_to_list p split body headers =
      let (same, t, shown) = some_body-facts message p.content body in
      record {
        partition = split_recipients-IsPartition h message.headers smtp_to_list p.recipients split;
        visible = split_recipients-IsVisible h message.headers smtp_to_list p.recipients split;
        some_text = (t, shown);
        text = rw same (filled-IsShown (get_body (codes "plain") message.body));
        html = rw same (filled-IsShown (get_body (codes "html") message.body));
        limits = passthrough_headers-IsWithinLimits h message.headers p.headers headers;
        permitted = (passthrough_headers-names h message.headers p.headers headers).0;
      }

  -- A payload that is built has 1 to 50 recipients: those of the envelope, each in one entry. An
  -- entry of Cc has an address of the Cc header, an entry of Bcc has no display name, and an entry
  -- of To has an address of the To header, unless To is one entry without a display name and Bcc is
  -- empty. The payload has a text or an HTML body, and each that it has is more than blanks. Its
  -- headers are ones that Cloudflare takes, within its limits.
  pub build_payload-IsAcceptable :
      (message : EmailMessage) (smtp_to_list : List Text) (p : Payload)
      → build_payload h message smtp_to_list ≡ ok p
      → IsAcceptable message smtp_to_list p
  unfolding build_payload
  build_payload-IsAcceptable message smtp_to_list p e = elim (Result-cases (sender h message)) [
    | inr (x, b0) ↦ cc (rw b0 at e)
    | inl (from, b0) ↦ elim (Result-cases (split_recipients h message.headers smtp_to_list)) [
      | inr (x, b1) ↦ cc (rw (b0, b1) at e)
      | inl (recipients, b1) ↦ elim (Result-cases (some_body h message)) [
        | inr (x, b2) ↦ cc (rw (b0, b1, b2) at e)
        | inl (content, b2) ↦ elim (Result-cases (passthrough_headers h message.headers)) [
          | inr (x, b3) ↦ cc (rw (b0, b1, b2, b3) at e)
          | inl (headers, b3) ↦
              rw (← ok_injective (rw (b0, b1, b2, b3) at e))
                (parts-IsAcceptable message smtp_to_list _ b1 b2 b3)
        ]
      ]
    ]
  ]
