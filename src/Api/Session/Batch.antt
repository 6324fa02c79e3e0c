-- ===== src/Api/Session/Batch.antt =====
-- A fatal error ends the batch: no later send of the session makes a request.
use odoo_cloudflare_email.Prelude.{
  ◌≡◌, refl, ap, ◌∙◌, true, false, none, some, List, [], ◌∷◌, map, inl, inr, arith, Option-cases,
  Bool-cases, ltb, length,
}
use odoo_cloudflare_email.Text.{Text}
use odoo_cloudflare_email.Json.{Json}
use odoo_cloudflare_email.Errors.{
  CloudflareEmailError, Exception, Result, err, is_fatal, Result-cases, >>=-eq-err,
}
use odoo_cloudflare_email.Api.Host.{Host}
use odoo_cloudflare_email.Api.Mime.{EmailMessage}
use odoo_cloudflare_email.Api.Payload.{Payload, build_payload, encode_body}
use odoo_cloudflare_email.Api.Session.{State, Network, post, max_body_bytes}
use odoo_cloudflare_email.Api.Session.Send.{
  refused_after, finish, send_payload, send_fresh, send_after, send_message, send_all,
}
use odoo_cloudflare_email.Api.Session.Raises.{build_payload-err, finish-err}
use odoo_cloudflare_email.Api.Session.Memory.{post-Ending}

not_fatal : (x : Exception) → is_fatal x ≡ true → is_fatal x ≡ false → ⊥
not_fatal x f g = cc

module _ (h : Host) (network : Network) where
  -- A send that raises a fatal error leaves it in the session.
  send_payload-fatal :
      (p : Payload) (s : State) (x : Exception)
      → (send_payload h network p s).0 ≡ err x
      → is_fatal x ≡ true
      → (f : CloudflareEmailError) × ((send_payload h network p s).1.session.fatal_error ≡ some f)
  unfolding send_payload
  send_payload-fatal p s x e f = elim (Bool-cases (ltb max_body_bytes (length (encode_body p)))) [
    | inl big ↦ absurd (not_fatal x f (ground (arith, rw big at e)))
    | inr fits ↦
        rw fits
          (elim (>>=-eq-err (post network (encode_body p) s).0 (finish h p.recipients)
            (rw fits at e)) [
              | inl raised ↦ elim (rw raised at (post-Ending network (encode_body p) s)) [
                | inl (error, same, barred) ↦ (error, barred.remembered)
                | inr (calm, kept) ↦ absurd (not_fatal x f calm)
              ]
              | inr (result, returned, e') ↦
                  absurd (not_fatal x f (finish-err h result p.recipients x e'))
            ])
  ]

  -- A send of a session that has no fatal error yet.
  send_fresh-fatal :
      (m : EmailMessage) (l : List Text) (s : State) (x : Exception)
      → (send_fresh h network m l s).0 ≡ err x
      → is_fatal x ≡ true
      → (f : CloudflareEmailError) × ((send_fresh h network m l s).1.session.fatal_error ≡ some f)
  unfolding send_fresh
  send_fresh-fatal m l s x e f = elim (Result-cases (build_payload h m l)) [
    | inl (p, b) ↦ rw (b, send_fresh) (send_payload-fatal p s x (rw (b, send_fresh) at e) f)
    | inr (y, b) ↦
        let same : y ≡ x = cc (rw (b, send_fresh) at e) in
        absurd (not_fatal x f (rw (← same) (build_payload-err h m l y b)))
  ]

  pub send_message-none :
      (m : EmailMessage) (l : List Text) (s : State)
      → s.session.fatal_error ≡ none
      → send_message h network m l s ≡ send_fresh h network m l s
  unfolding send_message
  send_message-none m l s e = ap (λ o. send_after h network o m l s) e

  pub send_message-some :
      (m : EmailMessage) (l : List Text) (s : State) (f : CloudflareEmailError)
      → s.session.fatal_error ≡ some f
      → send_message h network m l s ≡ (err (refused_after f), s)
  unfolding send_message
  send_message-some m l s f e = ap (λ o. send_after h network o m l s) e

  send_message-fatal :
      (m : EmailMessage) (l : List Text) (s : State) (x : Exception)
      → (send_message h network m l s).0 ≡ err x
      → is_fatal x ≡ true
      → (f : CloudflareEmailError) × ((send_message h network m l s).1.session.fatal_error ≡ some f)
  send_message-fatal m l s x e f = elim (Option-cases (s.session.fatal_error)) [
    | inl fresh ↦
        rw (send_message-none m l s fresh)
          (send_fresh-fatal m l s x (rw (send_message-none m l s fresh) at e) f)
    | inr (g, old) ↦ (
      g,
      ap (λ (r : Result Json × State). r.1.session.fatal_error) (send_message-some m l s g old)
          ∙ old,
    )
  ]

  -- A session with a fatal error sends nothing: each message gets that error again.
  send_all-some :
      (batch : List (EmailMessage × List Text)) (s : State) (f : CloudflareEmailError)
      → s.session.fatal_error ≡ some f
      → send_all h network batch s ≡ (map (λ _. err (refused_after f)) batch, s)
  unfolding send_all
  send_all-some [] s f e = refl
  send_all-some ((m, l) ∷ rest) s f e =
      rw (send_message-some m l s f e) (rw (send_all-some rest s f e))

  -- Once a send of a batch raises a fatal error, the rest of the batch makes no request, sleeps not
  -- and leaves the session as it is; each of its messages gets a fatal error.
  pub send_all-fails_fast :
      (m : EmailMessage) (l : List Text) (s : State) (x : Exception)
      (rest : List (EmailMessage × List Text))
      → (send_message h network m l s).0 ≡ err x
      → is_fatal x ≡ true
      → (f : CloudflareEmailError) × (send_all h network rest (send_message h network m l s).1
          ≡ (map (λ _. err (refused_after f)) rest, (send_message h network m l s).1))
  send_all-fails_fast m l s x rest e fatal =
      let (f, kept) = send_message-fatal m l s x e fatal in
      (f, send_all-some rest (send_message h network m l s).1 f kept)
