-- ===== src/Worker/Email.antt =====
-- worker/src/handlers/email.ts: the entry point for mail. It says what is put into R2 and queued; the
-- date and the size among the object's metadata are left out, and so is the logging.
use odoo_cloudflare_email.Prelude.{
  ℕ, ◌&&◌, Option, none, some, ◌++◌, leb, ltb, if◌then◌else◌, length, is_empty,
}
use odoo_cloudflare_email.Text.{Text, Bytes, codes}
use odoo_cloudflare_email.Worker.Strings.{trim, ascii_value}
use odoo_cloudflare_email.Worker.Rfc822.{
  EnvelopeError, Checked, safe, unsafe, assert_header_safe, envelope_headers, prepend_headers,
}
use odoo_cloudflare_email.Worker.Inbox.{EnqueueInput}
use odoo_cloudflare_email.Worker.Inbox.Order.{keep, take}

abbrev pub max_message_id : ℕ
max_message_id = 256

abbrev pub max_metadata_address : ℕ
max_metadata_address = 256

-- `messageIdOf`, by the header's value.
unfoldable pub message_id_of : Option Text → Option Text
unfolding trim keep take
message_id_of none = none
message_id_of (some header) =
    let id = take max_message_id (keep (λ c. leb 0x20 c && ltb c 0x7f) (trim header)) in
    if is_empty id then none else some id

-- An address as metadata. A code point above U+FFFF among the first ones raises, so that the cut,
-- which counts UTF-16 units, meets the code points themselves.
unfoldable pub metadata_address : Text → Option Text
unfolding ascii_value take
metadata_address address = ascii_value (take max_metadata_address address)

-- What `put` is given.
pub record Put : Type 0 where
  pub key : Text
  pub object : Bytes
  pub from : Text
  pub to : Text
  pub message_id : Option Text

-- The mail is rejected for good; or the handler raises, and the sender tries again later; or an
-- object is put and then a row queued.
pub data Received : Type 0 where
  refused : EnvelopeError → Received
  failed : Received
  stored : Put → EnqueueInput → Received

-- The two tests of the envelope: the first error.
unfoldable pub envelope_error : Text → Text → Option EnvelopeError
unfolding assert_header_safe
envelope_error from to = elim (assert_header_safe (codes "Delivered-To") to) [
  | some error ↦ some error
  | none ↦ assert_header_safe (codes "Return-Path") from
]

-- The `put` and the `enqueue`, with the two addresses as metadata.
unfoldable pub put_and_queue : EnqueueInput → Bytes → Option Text → Option Text → Received
put_and_queue input object none to = failed
put_and_queue input object (some from) none = failed
put_and_queue input object (some from) (some to) =
    stored
      (record {
        key = input.r2_key;
        object = object;
        from = from;
        to = to;
        message_id = input.message_id;
      })
      input

module _ (key_prefix : Text) where
  unfoldable pub input_of : Text → ℕ → Option Text → Text → Text → Bytes → EnqueueInput
  input_of id received_at message_id from to object = record {
    id = id;
    r2_key = key_prefix ++ (id ++ codes ".eml");
    from = from;
    to = to;
    message_id = message_id;
    size = length object;
    received_at = received_at;
  }

  -- What follows the envelope's tests, with the message's own id.
  unfoldable pub store_email : Text → ℕ → Option Text → Text → Text → Checked Bytes → Received
  unfolding input_of metadata_address put_and_queue
  store_email id received_at message_id from to (unsafe error) = failed
  store_email id received_at message_id from to (safe object) =
      put_and_queue (input_of id received_at message_id from to object) object
        (metadata_address from) (metadata_address to)

  -- `handleEmail`, with the new id and the present time.
  unfoldable pub handle_email : Text → ℕ → Option Text → Text → Text → Bytes → Received
  unfolding envelope_error store_email prepend_headers envelope_headers message_id_of
  handle_email id now message_id from to raw = elim (envelope_error from to) [
    | some error ↦ refused error
    | none ↦
        store_email id now (message_id_of message_id) from to
          (prepend_headers raw (envelope_headers from to))
  ]
