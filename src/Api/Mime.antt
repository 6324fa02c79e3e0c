-- ===== src/Api/Mime.antt =====
-- The `email.message.EmailMessage` that core prepared: what its accessors return. A part has an
-- identity, which Python's `id` gives.
use odoo_cloudflare_email.Prelude.{ℕ, Option, none, some, List, [], ◌∷◌, if◌then◌else◌}
use odoo_cloudflare_email.Text.{Text, Bytes, text_eq}
use odoo_cloudflare_email.Api.Host.{Host}

-- The headers of a message, in order, as `items()` gives them: repeated names stay.
abbrev pub Headers : Type 0
Headers = List (Text × Text)

module _ (h : Host) where
  -- `message[name]`: the first header of that name, whatever its case.
  unfoldable pub header : Text → Headers → Option Text
  header name [] = none
  header name ((k, v) ∷ hs) = if text_eq (h.lower k) (h.lower name) then some v else header name hs

-- `value or ""`.
abbrev pub or_empty : Option Text → Text
or_empty none = []
or_empty (some v) = v

-- What the accessors of one part return: `id`, `get_content_type`, `get_filename`,
-- `part["Content-ID"]`, `get_content_disposition`, `get_param("start")`, `get_content`,
-- `get_payload(decode=True)`, and for an attached message `get_payload()[0].as_bytes()`.
pub record PartInfo : Type 0 where
  pub id : ℕ
  pub content_type : Text
  pub filename : Option Text
  pub content_id : Option Text
  pub disposition : Option Text
  pub start : Option Text
  pub content : Text
  pub decoded : Option Bytes
  pub message_bytes : Bytes

-- A part is `multi` when `is_multipart()` holds: a multipart, or an attached message.
mutual
  pub data Part : Type 0 where
    single : PartInfo → Part
    multi : PartInfo → Parts → Part

  pub data Parts : Type 0 where
    nil : Parts
    cons : Part → Parts → Parts

abbrev pub info : Part → PartInfo
info (single i) = i
info (multi i ps) = i

pub record EmailMessage : Type 0 where
  pub headers : Headers
  pub body : Part
