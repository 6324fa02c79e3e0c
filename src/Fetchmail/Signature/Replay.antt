-- ===== src/Fetchmail/Signature/Replay.antt =====
-- How long a signed request can be used.
use odoo_cloudflare_email.Prelude.{
  ◌+◌, ◌*◌, ◌≤◌, ◌≡◌, sym, ◌∙◌, true, Option, ℤ, pos, negsuc, ◌-ℤ◌, abs, arith,
}
use odoo_cloudflare_email.Text.{Text, Bytes}
use odoo_cloudflare_email.Api.Host.{Host}
use odoo_cloudflare_email.Fetchmail.Signature.{signature_tolerance, verify_signature}
use odoo_cloudflare_email.Fetchmail.Signature.Spec.{verify_signature-IsSigned_iff}

triangle : (a b c : ℤ) → abs (a -ℤ c) ≤ abs (a -ℤ b) + abs (c -ℤ b)
triangle (pos a) (pos b) (pos c) = ground arith
triangle (pos a) (pos b) (negsuc c) = ground arith
triangle (pos a) (negsuc b) (pos c) = ground arith
triangle (pos a) (negsuc b) (negsuc c) = ground arith
triangle (negsuc a) (pos b) (pos c) = ground arith
triangle (negsuc a) (pos b) (negsuc c) = ground arith
triangle (negsuc a) (negsuc b) (pos c) = ground arith
triangle (negsuc a) (negsuc b) (negsuc c) = ground arith

module _ (h : Host) (hexdigest : Bytes → Bytes → Text) where
  -- Two times at which requests with one timestamp are accepted lie at most 600 seconds apart,
  -- whatever the signatures, the bodies and the secrets are.
  pub verify_signature-replay :
      (secret timestamp signature secret' signature' : Option Text) (body body' : Bytes)
      (first second : ℤ)
      → verify_signature h hexdigest secret timestamp signature body first ≡ true
      → verify_signature h hexdigest secret' timestamp signature' body' second ≡ true
      → abs (first -ℤ second) ≤ 2 * signature_tolerance
  verify_signature-replay secret timestamp signature secret' signature' body body' first second e
        e' =
      let (_, _, _, d) =
        (verify_signature-IsSigned_iff h hexdigest secret timestamp signature body first).0 e in
      let (_, _, _, d') =
        (verify_signature-IsSigned_iff h hexdigest secret' timestamp signature' body' second).0
          e' in
      let same : d.issued_at ≡ d'.issued_at = cc (sym d.issued ∙ d'.issued) in
      omega (arith, triangle first d.issued_at second, d.recent, rw (← same) at d'.recent)
