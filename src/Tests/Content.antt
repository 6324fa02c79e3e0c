-- ===== src/Tests/Content.antt =====
-- A message with two bodies, a picture and a forwarded mail.
use odoo_cloudflare_email.Prelude.{◌≡◌, ◌≢◌, refl, none, some, [], ◌∷◌, arith, All, map}
use odoo_cloudflare_email.Text.{Text, codes, text_eq, strip, starts_with}
use odoo_cloudflare_email.Text.Base64.{encode, digit}
use odoo_cloudflare_email.Text.Number.{decimal}
use odoo_cloudflare_email.Samples.{ascii_host}
use odoo_cloudflare_email.Api.Mime.{PartInfo, Part, single, multi, nil, cons}
use odoo_cloudflare_email.Api.Content.{
  Attachment, iter_leaves, get_body, extract_content, part_bytes,
}
use odoo_cloudflare_email.Api.Content.Attached.{IsBytes, IsExtracted, extract_content-IsExtracted}
use odoo_cloudflare_email.Api.Content.Bodies.{IsAlone, parts_of}

abbrev plain_part : PartInfo
plain_part = record {
  id = 2;
  content_type = codes "text/plain";
  filename = none;
  content_id = none;
  disposition = none;
  start = none;
  content = codes "hi";
  decoded = some (codes "hi");
  message_bytes = [];
}

abbrev html_part : PartInfo
html_part = record plain_part { id = 3; content_type = codes "text/html" }

abbrev picture : PartInfo
picture = record plain_part {
  id = 4;
  content_type = codes "image/png";
  content_id = some (codes "<logo>");
  decoded = some (137 ∷ 80 ∷ []);
}

abbrev inner : PartInfo
inner = record plain_part { id = 6 }

abbrev forwarded : PartInfo
forwarded = record plain_part {
  id = 5;
  content_type = codes "message/rfc822";
  filename = some (codes "mail.eml");
  message_bytes = codes "inner";
}

abbrev letter : Part
letter =
    multi (record plain_part { id = 0; content_type = codes "multipart/mixed" })
      (cons
        (multi (record plain_part { id = 1; content_type = codes "multipart/alternative" })
          (cons (single plain_part) (cons (single html_part) nil)))
        (cons (single picture) (cons (multi forwarded (cons (single inner) nil)) nil)))

leaves_test : iter_leaves letter ≡ plain_part ∷ html_part ∷ picture ∷ forwarded ∷ []
unfolding iter_leaves text_eq
leaves_test = refl

attachments_test :
    map {B = Text × Text}
      (λ (a : Attachment). (a.content, a.filename))
      (extract_content ascii_host letter).attachments
    ≡ (codes "iVA=", codes "attachment-1") ∷ (codes "aW5uZXI=", codes "mail.eml") ∷ []
unfolding extract_content text_eq strip starts_with encode decimal digit
attachments_test = refl

other : {i j : PartInfo} → i.id ≢ j.id → i.id ≡ j.id → i ≡ j
other far same = absurd (far same)

letter-IsAlone : All (IsAlone (iter_leaves letter)) (parts_of letter)
unfolding iter_leaves parts_of text_eq
letter-IsAlone = (
  (other (omega arith), (other (omega arith), (other (omega arith), (other (omega arith), tt)))),
  (
    (other (omega arith), (other (omega arith), (other (omega arith), (other (omega arith), tt)))),
    (
      (λ _. refl, (other (omega arith), (other (omega arith), (other (omega arith), tt)))),
      (
        (other (omega arith), (λ _. refl, (other (omega arith), (other (omega arith), tt)))),
        (
          (other (omega arith), (other (omega arith), (λ _. refl, (other (omega arith), tt)))),
          (
            (other (omega arith), (other (omega arith), (other (omega arith), (λ _. refl, tt)))),
            (
              (
                other (omega arith),
                (other (omega arith), (other (omega arith), (other (omega arith), tt))),
              ),
              tt,
            ),
          ),
        ),
      ),
    ),
  ),
)

letter-IsBytes : All (λ i. IsBytes (part_bytes i)) (iter_leaves letter)
unfolding iter_leaves text_eq
letter-IsBytes = (
  (omega arith, (omega arith, tt)),
  (
    (omega arith, (omega arith, tt)),
    (
      (omega arith, (omega arith, tt)),
      ((omega arith, (omega arith, (omega arith, (omega arith, (omega arith, tt))))), tt),
    ),
  ),
)

extract_content-IsExtracted_example :
    IsExtracted
      (iter_leaves letter)
      (get_body (codes "html") letter)
      (get_body (codes "plain") letter)
      (extract_content ascii_host letter)
extract_content-IsExtracted_example =
    extract_content-IsExtracted ascii_host letter letter-IsAlone letter-IsBytes
