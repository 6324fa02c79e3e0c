-- ===== src/Fetchmail/Signature.antt =====
-- `_cloudflare_verify_signature`. HMAC-SHA256 with its hexadecimal print is a parameter: a function
-- of the secret's bytes and the signed bytes.
pub mod Spec
pub mod Replay
use odoo_cloudflare_email.Prelude.{
  ℕ, ◌≡◌, refl, Bool, true, false, not, ◌&&◌, ◌||◌, Option, none, some, List, [], ◌∷◌, ◌++◌, ltb,
  if◌then◌else◌, is_empty, ◌==◌, ℤ, pos, ◌-ℤ◌, abs, all,
}
use odoo_cloudflare_email.Text.{Text, Bytes, codes, text_eq, strip, utf8}
use odoo_cloudflare_email.Text.Number.{parse_int}
use odoo_cloudflare_email.Api.Host.{Host}
use odoo_cloudflare_email.Api.Mime.{or_empty}

abbrev pub signature_tolerance : ℕ
signature_tolerance = 300

abbrev pub signature_scheme : Text
signature_scheme = codes "v1"

-- `text.partition("=")` without the separator.
unfoldable pub partition : Text → Text × Text
partition [] = ([], [])
partition (c ∷ s) =
    let (before, after) = partition s in if c == b'=' then ([], s) else (c ∷ before, after)

-- `hmac.compare_digest` of two texts, where one is ASCII: the `TypeError` of a text that is not is
-- caught and read as false.
unfoldable pub compare_digest : Text → Text → Bool
compare_digest expected digest = all (λ c. ltb c 128) digest && text_eq expected digest

-- The bytes that are signed: the timestamp as it was received, a dot and the body.
abbrev pub signed_bytes : Text → Bytes → Bytes
signed_bytes timestamp body = utf8 (timestamp ++ codes ".") ++ body

module _ (h : Host) (hexdigest : Bytes → Bytes → Text) where
  -- The tests on the signature, when the time is right.
  unfoldable pub check_digest : Text → Text → Text → Bytes → Bool
  unfolding partition compare_digest
  check_digest secret timestamp signature body =
      let (scheme, digest) = partition (strip signature) in
      if not (text_eq scheme signature_scheme) || is_empty digest
      then false
      else compare_digest (hexdigest (utf8 secret) (signed_bytes timestamp body)) (h.lower digest)

  unfoldable pub check_issued : Option ℤ → Text → Text → Text → Bytes → ℤ → Bool
  unfolding check_digest
  check_issued none secret timestamp signature body now = false
  check_issued (some issued_at) secret timestamp signature body now =
      if ltb signature_tolerance (abs (now -ℤ issued_at))
      then false
      else check_digest secret timestamp signature body

  -- `_cloudflare_verify_signature` of a server with this secret, at the time `now` in seconds.
  unfoldable pub verify_signature : Option Text → Option Text → Option Text → Bytes → ℤ → Bool
  unfolding check_issued
  verify_signature secret timestamp signature body now =
      if is_empty (or_empty secret)
        || is_empty (or_empty timestamp)
        || is_empty (or_empty signature)
      then false
      else let stripped = strip (or_empty timestamp) in
        check_issued (parse_int stripped) (or_empty secret) stripped (or_empty signature) body now
