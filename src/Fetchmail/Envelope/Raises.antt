-- ===== src/Fetchmail/Envelope/Raises.antt =====
-- What the preparation of a message raises.
use odoo_cloudflare_email.Prelude.{◌≡◌, Option, none, some, Bool-cases, inl, inr}
use odoo_cloudflare_email.Text.{Text, Bytes, codes}
use odoo_cloudflare_email.Errors.{Exception, value_error, err, >>=-eq-err}
use odoo_cloudflare_email.Fetchmail.Envelope.{
  prepare_message, check_envelope, has_control, control_characters,
}

module _ (unquote : Text → Text) where
  check_envelope-eq-err :
      (name : Text) (value : Option Text) (e : Exception)
      → check_envelope unquote name value ≡ err e
      → (text : Text) × (e ≡ value_error text)
  unfolding check_envelope
  check_envelope-eq-err name none e raised = cc
  check_envelope-eq-err name (some value) e raised =
      elim (Bool-cases (has_control (unquote value))) [
        | inl bad ↦ let same = rw bad at raised in (control_characters name, cc)
        | inr good ↦ cc (rw good at raised)
      ]

  -- The one exception of the preparation is a `ValueError`.
  pub prepare_message-eq-err :
      (body : Bytes) (envelope_from envelope_to : Option Text) (e : Exception)
      → prepare_message unquote body envelope_from envelope_to ≡ err e
      → (text : Text) × (e ≡ value_error text)
  unfolding prepare_message
  prepare_message-eq-err body envelope_from envelope_to e raised =
      elim (>>=-eq-err (check_envelope unquote (codes "envelope-from") envelope_from) _ raised) [
        | inl first ↦ check_envelope-eq-err (codes "envelope-from") envelope_from e first
        | inr (sender, _, later) ↦
            elim (>>=-eq-err (check_envelope unquote (codes "envelope-to") envelope_to) _ later) [
              | inl second ↦ check_envelope-eq-err (codes "envelope-to") envelope_to e second
              | inr (recipient, _, never) ↦ cc
            ]
      ]
