-- ===== src/Worker/Handoff.antt =====
-- The Worker and the webhook together: what the handler in controllers/main.py makes of the request
-- that worker/src/inbox-do.ts sends. `unquote` and HMAC-SHA256 are parameters.
pub mod Prepared
pub mod Signed
pub mod Email
pub mod Inbound
pub mod Verdict
use odoo_cloudflare_email.Text.{codes}
use odoo_cloudflare_email.Text.Dict.{lookup}
use odoo_cloudflare_email.Fetchmail.Inbound.{Request}
use odoo_cloudflare_email.Worker.Attempt.{Delivery}

-- What the handler reads of a request: its headers by name, and its body.
unfoldable pub request_of : Delivery → Request
unfolding lookup
request_of d = record {
  id = lookup (codes "X-Mail-Cloudflare-Id") d.headers;
  timestamp = lookup (codes "X-Mail-Cloudflare-Timestamp") d.headers;
  signature = lookup (codes "X-Mail-Cloudflare-Signature") d.headers;
  envelope_from = lookup (codes "X-Mail-Cloudflare-Envelope-From") d.headers;
  envelope_to = lookup (codes "X-Mail-Cloudflare-Envelope-To") d.headers;
  body = d.body;
}
