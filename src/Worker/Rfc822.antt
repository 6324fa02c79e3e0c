-- ===== src/Worker/Rfc822.antt =====
-- worker/src/lib/rfc822.ts: the envelope as header lines in front of a message.
use odoo_cloudflare_email.Prelude.{
  ℕ, Option, none, some, List, [], ◌∷◌, ◌++◌, length, ltb, if◌then◌else◌, is_empty,
}
use odoo_cloudflare_email.Text.{Text, Bytes, codes, utf8}
use odoo_cloudflare_email.Fetchmail.Envelope.{has_control}

-- The two texts of an `EnvelopeError`, with the header's name.
pub data EnvelopeError : Type 0 where
  control_character too_long : Text → EnvelopeError

pub data Checked {ℓ} (A : Type ℓ) : Type ℓ where
  safe : A → Checked A
  unsafe : EnvelopeError → Checked A

abbrev pub max_line_octets : ℕ
max_line_octets = 998

-- A header line without its end.
abbrev pub line_of : Text → Text → Text
line_of name value = name ++ (codes ": " ++ value)

-- `assertHeaderSafe`; none is its return, and its control characters are those of the webhook.
unfoldable pub assert_header_safe : Text → Text → Option EnvelopeError
unfolding has_control
assert_header_safe name value =
    if has_control value
    then some (control_character name)
    else if ltb max_line_octets (length (utf8 (line_of name value)))
    then some (too_long name)
    else none

-- `envelopeHeaders`.
unfoldable pub envelope_headers : Text → Text → List (Text × Text)
envelope_headers from to =
    (codes "Delivered-To", to)
    ∷ (codes "Return-Path", if is_empty from then codes "<>" else codes "<" ++ (from ++ codes ">"))
    ∷ []

-- A line in front of a block, when its test found no error.
unfoldable pub add_line : Option EnvelopeError → Text → Checked Text → Checked Text
add_line (some error) line rest = unsafe error
add_line none line (unsafe error) = unsafe error
add_line none line (safe block) = safe (line ++ (codes "\r\n" ++ block))

-- The loop of `prependHeaders`: the block, or the first error.
unfoldable pub header_block : List (Text × Text) → Checked Text
unfolding assert_header_safe add_line
header_block [] = safe []
header_block ((name, value) ∷ headers) =
    add_line (assert_header_safe name value) (line_of name value) (header_block headers)

unfoldable pub in_front : Checked Text → Bytes → Checked Bytes
in_front (unsafe error) raw = unsafe error
in_front (safe block) raw = safe (utf8 block ++ raw)

-- `prependHeaders`.
unfoldable pub prepend_headers : Bytes → List (Text × Text) → Checked Bytes
unfolding header_block in_front
prepend_headers raw headers = in_front (header_block headers) raw
