-- ===== src/Worker/Sign.antt =====
-- worker/src/lib/sign.ts: the signature of one attempt. HMAC-SHA256 with its hexadecimal print is
-- the parameter that the webhook's check has.
use odoo_cloudflare_email.Prelude.{ℕ, ◌/◌, ◌++◌}
use odoo_cloudflare_email.Text.{Text, Bytes, codes, utf8}
use odoo_cloudflare_email.Text.Number.{decimal}

-- `unixSeconds` of a time in milliseconds.
unfoldable pub unix_seconds : ℕ → ℕ
unix_seconds now = now / 1000

-- `signaturePayload`.
unfoldable pub signature_payload : ℕ → Bytes → Bytes
signature_payload timestamp body = utf8 (decimal timestamp ++ codes ".") ++ body

-- `signBody`.
unfoldable pub sign_body : (Bytes → Bytes → Text) → Text → ℕ → Bytes → Text
unfolding signature_payload
sign_body hexdigest secret timestamp body =
    codes "v1=" ++ hexdigest (utf8 secret) (signature_payload timestamp body)
