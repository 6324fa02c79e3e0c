-- ===== src/Worker/Handoff/Email.antt =====
-- What the Worker has put into R2 when it queues a message.
use odoo_cloudflare_email.Prelude.{
  ℕ, ◌≡◌, refl, sym, ap, ◌∙◌, false, Option, none, some, [], ◌∷◌, ◌++◌, Bool-cases, Option-cases,
  inl, inr, is_empty, if◌then◌else◌,
}
use odoo_cloudflare_email.Text.{Text, Bytes, codes, utf8}
use odoo_cloudflare_email.Fetchmail.Envelope.{has_control, joined_lines}
use odoo_cloudflare_email.Worker.Rfc822.{
  EnvelopeError, Checked, safe, unsafe, assert_header_safe, envelope_headers, header_block,
  add_line, in_front, prepend_headers,
}
use odoo_cloudflare_email.Worker.Inbox.{EnqueueInput}
use odoo_cloudflare_email.Worker.Email.{
  Put, stored, envelope_error, message_id_of, put_and_queue, input_of, store_email, handle_email,
}
use odoo_cloudflare_email.Worker.Handoff.Prepared.{stored_of}

assert_header_safe-clean :
    (name value : Text) → assert_header_safe name value ≡ none → has_control value ≡ false
unfolding assert_header_safe
assert_header_safe-clean name value e = elim (Bool-cases (has_control value)) [
  | inl bad ↦ absurd (cc (rw bad at e))
  | inr good ↦ good
]

envelope_error-clean :
    (from to : Text)
    → envelope_error from to ≡ none
    → (has_control from ≡ false) × (has_control to ≡ false)
unfolding envelope_error
envelope_error-clean from to e =
    elim (Option-cases (assert_header_safe (codes "Delivered-To") to)) [
      | inr (error, bad) ↦ absurd (cc (rw (bad, envelope_error) at e))
      | inl good ↦ (
        assert_header_safe-clean (codes "Return-Path") from (rw (good, envelope_error) at e),
        assert_header_safe-clean (codes "Delivered-To") to good,
      )
    ]

-- A block that is made has its lines as they stand.
add_line-safe :
    (error : Option EnvelopeError) (line : Text) (rest : Checked Text) (block : Text)
    → add_line error line rest ≡ safe block
    → (tail : Text) × (rest ≡ safe tail) × (block ≡ line ++ (codes "\r\n" ++ tail))
unfolding add_line
add_line-safe (some error) line rest block e = absurd (cc)
add_line-safe none line (unsafe error) block e = absurd (cc)
add_line-safe none line (safe tail) block e = (tail, refl, cc)

in_front-safe :
    (c : Checked Text) (raw object : Bytes)
    → in_front c raw ≡ safe object
    → (block : Text) × (c ≡ safe block) × (object ≡ utf8 block ++ raw)
unfolding in_front
in_front-safe (unsafe error) raw object e = absurd (cc)
in_front-safe (safe block) raw object e = (block, refl, cc)

bracketed :
    (from : Text)
    → (if is_empty from then codes "<>" else codes "<" ++ (from ++ codes ">"))
      ≡ codes "<" ++ (from ++ codes ">")
bracketed [] = refl
bracketed (c ∷ from) = refl

prepend_headers-stored :
    (from to : Text) (raw object : Bytes)
    → prepend_headers raw (envelope_headers from to) ≡ safe object
    → object ≡ stored_of from to raw
unfolding prepend_headers envelope_headers header_block joined_lines
prepend_headers-stored from to raw object e =
    let (block, made, same) = in_front-safe _ raw object e in
    let (tail, rest, first) = add_line-safe _ _ _ block made in
    let (nothing, end, second) = add_line-safe _ _ _ tail rest in
    let none_left : nothing ≡ [] = cc in rw (same, first, second, none_left, bracketed from) refl

stored_injective :
    {put put' : Put} {input input' : EnqueueInput}
    → stored put input ≡ stored put' input'
    → (put ≡ put') × (input ≡ input')
stored_injective e = (cc, cc)

put_and_queue-stored :
    (input input' : EnqueueInput) (object : Bytes) (from to : Option Text) (put : Put)
    → put_and_queue input object from to ≡ stored put input'
    → (put.object ≡ object) × (put.key ≡ input.r2_key) × (input' ≡ input)
unfolding put_and_queue
put_and_queue-stored input input' object none to put e = absurd (cc)
put_and_queue-stored input input' object (some from) none put e = absurd (cc)
put_and_queue-stored input input' object (some from) (some to) put e =
    let (same_put, same_input) = stored_injective e in
    (
      sym (ap (λ (p : Put). p.object) same_put),
      sym (ap (λ (p : Put). p.key) same_put),
      sym same_input,
    )

-- A message that is queued has been put under the key of its row, as the two lines and the message
-- itself, and its addresses have no control character.
pub record IsStored (from to : Text) (raw : Bytes) (put : Put) (input : EnqueueInput) : Type 0 where
  pub object : put.object ≡ stored_of from to raw
  pub key : put.key ≡ input.r2_key
  pub sender : input.from ≡ from
  pub recipient : input.to ≡ to
  pub clean_sender : has_control from ≡ false
  pub clean_recipient : has_control to ≡ false

module _ (key_prefix : Text) where
  store_email-stored :
      (id : Text) (received_at : ℕ) (message_id : Option Text) (from to : Text) (c : Checked Bytes)
      (put : Put) (input : EnqueueInput)
      → store_email key_prefix id received_at message_id from to c ≡ stored put input
      → (c ≡ safe put.object) × (put.key ≡ input.r2_key) × (input.from ≡ from) × (input.to ≡ to)
  unfolding store_email input_of
  store_email-stored id received_at message_id from to (unsafe error) put input e = absurd (cc)
  store_email-stored id received_at message_id from to (safe object) put input e =
      let (same, key, same_input) = put_and_queue-stored _ input object _ _ put e in
      (
        ap safe (sym same),
        key ∙ sym (ap (λ (i : EnqueueInput). i.r2_key) same_input),
        ap (λ (i : EnqueueInput). i.from) same_input,
        ap (λ (i : EnqueueInput). i.to) same_input,
      )

  pub handle_email-IsStored :
      (id : Text) (now : ℕ) (message_id : Option Text) (from to : Text) (raw : Bytes) (put : Put)
      (input : EnqueueInput)
      → handle_email key_prefix id now message_id from to raw ≡ stored put input
      → IsStored from to raw put input
  unfolding handle_email
  handle_email-IsStored id now message_id from to raw put input e =
      elim (Option-cases (envelope_error from to)) [
        | inr (error, bad) ↦ absurd (cc (rw (bad, handle_email) at e))
        | inl good ↦
            let (clean_from, clean_to) = envelope_error-clean from to good in
            let (made, key, sender, recipient) =
              store_email-stored id now (message_id_of message_id) from to _ put input
                (rw (good, handle_email) at e) in
            record {
              object = prepend_headers-stored from to raw put.object made;
              key = key;
              sender = sender;
              recipient = recipient;
              clean_sender = clean_from;
              clean_recipient = clean_to;
            }
      ]
