-- ===== src/Api/Session/Send.antt =====
-- `send_message`, and the calls that core makes on one session, one after the other.
use odoo_cloudflare_email.Prelude.{
  true, Option, none, some, List, [], ◌∷◌, ltb, if◌then◌else◌, length,
}
use odoo_cloudflare_email.Text.{Text, codes}
use odoo_cloudflare_email.Json.{Json, str, obj, get, truthy}
use odoo_cloudflare_email.Errors.{
  CloudflareEmailError, Exception, cloudflare, not_retried, body_too_large, plain, Result, ok, err,
  ◌>>=◌, ◌>>◌,
}
use odoo_cloudflare_email.Api.Host.{Host}
use odoo_cloudflare_email.Api.Mime.{EmailMessage}
use odoo_cloudflare_email.Api.Recipients.{Recipients}
use odoo_cloudflare_email.Api.Payload.{Payload, build_payload, encode_body}
use odoo_cloudflare_email.Api.Session.{State, Network, post, max_body_bytes}
use odoo_cloudflare_email.Api.Session.Bounces.{check_recipients}

-- `result.get("message_id") or ""`.
unfoldable pub message_id : Json → Json
message_id (obj fs) = let id = get (codes "message_id") fs in if truthy id then id else str []
message_id _ = str []

-- The error of a send after a fatal one.
abbrev pub refused_after : CloudflareEmailError → Exception
refused_after f =
    cloudflare
      (record { message = not_retried f.message; status = f.status; code = f.code; fatal = true })

-- What follows the answer of `_post`.
unfoldable pub finish : Host → Recipients → Json → Result Json
finish h r result = do check_recipients h result r; ok (message_id result)

module _ (h : Host) (network : Network) where
  -- From the payload on.
  unfoldable pub send_payload : Payload → State → Result Json × State
  unfolding finish
  send_payload payload s =
      let body = encode_body payload in
      if ltb max_body_bytes (length body)
      then (err (cloudflare (plain (body_too_large (length body)))), s)
      else let (posted, s') = post network body s in (posted >>= finish h payload.recipients, s')

  unfoldable pub send_fresh : EmailMessage → List Text → State → Result Json × State
  unfolding send_payload
  send_fresh message smtp_to_list s = elim (build_payload h message smtp_to_list) [
    | ok payload ↦ send_payload payload s
    | err e ↦ (err e, s)
  ]

  -- The test on `self._fatal_error`.
  unfoldable pub send_after :
      Option CloudflareEmailError → EmailMessage → List Text → State → Result Json × State
  unfolding send_fresh
  send_after (some f) message smtp_to_list s = (err (refused_after f), s)
  send_after none message smtp_to_list s = send_fresh message smtp_to_list s

  unfoldable pub send_message : EmailMessage → List Text → State → Result Json × State
  unfolding send_after
  send_message message smtp_to_list s = send_after s.session.fatal_error message smtp_to_list s

  -- A batch of sends; an exception ends only its own message.
  unfoldable pub send_all : List (EmailMessage × List Text) → State → List (Result Json) × State
  unfolding send_message
  send_all [] s = ([], s)
  send_all ((message, smtp_to_list) ∷ rest) s =
      let (r, s') = send_message message smtp_to_list s in
      let (rs, s'') = send_all rest s' in (r ∷ rs, s'')
