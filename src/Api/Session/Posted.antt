-- ===== src/Api/Session/Posted.antt =====
-- What Cloudflare receives of a message.
use odoo_cloudflare_email.Prelude.{
  ℕ, ◌≤◌, ◌≡◌, refl, false, none, some, List, inl, inr, arith, ltb, length,
}
use odoo_cloudflare_email.Text.{Text}
use odoo_cloudflare_email.Json.Loads.Codes.{HasCodes}
use odoo_cloudflare_email.Errors.{ok}
use odoo_cloudflare_email.Api.Host.{Host}
use odoo_cloudflare_email.Api.Mime.{EmailMessage}
use odoo_cloudflare_email.Api.Payload.{Payload, payload_json, build_payload, encode_body}
use odoo_cloudflare_email.Api.Payload.Body.{read_body, read_body-encode_body}
use odoo_cloudflare_email.Api.Session.{State, Network, Request, post, max_body_bytes}
use odoo_cloudflare_email.Api.Session.Send.{send_payload, send_fresh, send_message}
use odoo_cloudflare_email.Api.Session.Retry.{again, request_of, post-IsSpent}
use odoo_cloudflare_email.Api.Session.Batch.{send_message-none}

-- The requests of a send: the same request some times, with a body that reads as the payload.
pub record IsPosted (p : Payload) (s s' : State) : Type 0 where
  pub rounds : ℕ
  pub some_round : 1 ≤ rounds
  pub few : rounds ≤ 3
  pub request : Request
  pub sent : s'.requests ≡ again rounds request s.requests
  pub url : request.url ≡ s.session.send_url
  pub authorization : request.authorization ≡ s.session.authorization
  pub reads : read_body request.body ≡ some (payload_json p)

module _ (h : Host) (network : Network) where
  send_payload-sent :
      (p : Payload) (s : State)
      → length (encode_body p) ≤ max_body_bytes
      → (send_payload h network p s).1 ≡ (post network (encode_body p) s).1
  unfolding send_payload
  send_payload-sent p s fits =
      let small : ltb max_body_bytes (length (encode_body p)) ≡ false = ground arith in
      rw small refl

  -- A message that makes a payload of code points whose body has at most 5 MiB is sent, by a session
  -- that remembers no error, in one to three equal requests to the session's address with its token,
  -- whatever the network answers, and the body of each reads back as that payload.
  pub send_message-IsPosted :
      (m : EmailMessage) (l : List Text) (p : Payload) (s : State)
      → s.session.fatal_error ≡ none
      → build_payload h m l ≡ ok p
      → HasCodes (payload_json p)
      → length (encode_body p) ≤ max_body_bytes
      → IsPosted p s (send_message h network m l s).1
  unfolding send_fresh
  send_message-IsPosted m l p s fresh built valid fits =
      let spent = post-IsSpent network (encode_body p) s in
      rw (send_message-none h network m l s fresh) (
        rw (built, send_fresh)
          (rw (send_payload-sent p s fits) (record {
            rounds = spent.rounds;
            some_round = elim spent.some_round [
              | inl never ↦ absurd (omega (arith, never))
              | inr le ↦ le
            ];
            few = spent.few;
            request = request_of (encode_body p) s;
            sent = spent.sent;
            url = refl;
            authorization = refl;
            reads = read_body-encode_body p valid;
          })))
