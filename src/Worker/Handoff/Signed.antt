-- ===== src/Worker/Handoff/Signed.antt =====
-- The webhook accepts what the Worker signed.
use odoo_cloudflare_email.Prelude.{
  ℕ, ◌≤◌, ◌<◌, ◌≡◌, ◌≢◌, ◌⊎◌, refl, ◌∙◌, ap₂, true, some, [], ◌∷◌, ◌++◌, map, ℤ, pos, ◌-ℤ◌, abs,
  All, All-weaken, arith,
}
use odoo_cloudflare_email.Text.{Text, Bytes, codes, strip, utf8, is_space}
use odoo_cloudflare_email.Text.Number.{decimal, parse_int}
use odoo_cloudflare_email.Text.Number.RoundTrip.{decimal-IsSolid, parse_int-decimal}
use odoo_cloudflare_email.Text.Strip.{IsSolid, strip-IsSolid}
use odoo_cloudflare_email.Api.Host.{Host, IsAscii, ascii_lower}
use odoo_cloudflare_email.Fetchmail.Signature.{signature_tolerance, verify_signature}
use odoo_cloudflare_email.Fetchmail.Signature.Spec.{verify_signature-IsSigned_iff}
use odoo_cloudflare_email.Worker.Sign.{signature_payload, sign_body}

-- A hexadecimal print in lower case, as the two programs make it of a digest.
abbrev pub IsHexDigit : ℕ → Type 0
IsHexDigit c = ((b'0' ≤ c) × (c ≤ b'9')) ⊎ ((b'a' ≤ c) × (c ≤ b'f'))

pub record IsHex (s : Text) : Type 0 where
  pub some_digit : s ≢ []
  pub digits : All IsHexDigit s

IsHexDigit-IsAscii : (s : Text) → All IsHexDigit s → IsAscii s
IsHexDigit-IsAscii s = All-weaken s (λ c p. ground arith)

IsHexDigit-IsSolid : (s : Text) → All IsHexDigit s → IsSolid s
unfolding is_space
IsHexDigit-IsSolid s = All-weaken s (λ c p. ground arith)

lower-IsHexDigit : (s : Text) → All IsHexDigit s → map ascii_lower s ≡ s
lower-IsHexDigit [] p = refl
lower-IsHexDigit (c ∷ s) (pc, p) =
    ap₂ (λ (d : ℕ) (t : Text). d ∷ t) (ground arith) (lower-IsHexDigit s p)

parse_int_empty : (n : ℕ) → parse_int [] ≢ some (pos n)
unfolding parse_int strip
parse_int_empty n e = cc

decimal-filled : (n : ℕ) → n < 10000000000000 → decimal n ≢ []
decimal-filled n small e = parse_int_empty n (rw e at (parse_int-decimal n small))

hex-IsSolid : (digest : Text) → All IsHexDigit digest → IsSolid (codes "v1=" ++ digest)
unfolding is_space
hex-IsSolid digest p = (refl, (refl, (refl, IsHexDigit-IsSolid digest p)))

module _ (h : Host) (hexdigest : Bytes → Bytes → Text)
    (hex : (key message : Bytes) → IsHex (hexdigest key message)) where
  pub verify_signature-sign_body :
      (secret : Text) (timestamp : ℕ) (body : Bytes) (now : ℤ)
      → secret ≢ []
      → timestamp < 10000000000000
      → abs (now -ℤ pos timestamp) ≤ signature_tolerance
      → verify_signature h hexdigest
          (some secret)
          (some (decimal timestamp))
          (some (sign_body hexdigest secret timestamp body))
          body
          now
        ≡ true
  unfolding sign_body signature_payload
  verify_signature-sign_body secret timestamp body now filled small recent =
      let digest = hexdigest (utf8 secret) (signature_payload timestamp body) in
      let p = hex (utf8 secret) (signature_payload timestamp body) in
      let bare : strip (decimal timestamp) ≡ decimal timestamp =
        strip-IsSolid (decimal timestamp) (decimal-IsSolid timestamp) in
      let lowered : h.lower digest ≡ digest =
        h.lower_of_IsAscii digest (IsHexDigit-IsAscii digest p.digits)
        ∙ lower-IsHexDigit digest p.digits in
      (verify_signature-IsSigned_iff h hexdigest (some secret) (some (decimal timestamp))
          (some (sign_body hexdigest secret timestamp body)) body now).1
        (
          filled,
          decimal-filled timestamp small,
          (λ e. cc),
          record {
            issued_at = pos timestamp;
            issued = rw bare (parse_int-decimal timestamp small);
            recent = recent;
            digest = digest;
            form = strip-IsSolid (codes "v1=" ++ digest) (hex-IsSolid digest p.digits);
            some_digest = p.some_digit;
            matches = rw bare lowered;
            ascii = rw lowered (IsHexDigit-IsAscii digest p.digits);
          },
        )
