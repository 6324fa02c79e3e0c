-- ===== src/Fetchmail/Signature/Spec.antt =====
-- What a signature has to be, and how long a signed request can be used.
use odoo_cloudflare_email.Prelude.{
  ◌≤◌, ◌≡◌, ◌↔◌, refl, ap, sym, ◌∙◌, true, false, Option, none, some, [], ◌∷◌, ◌++◌, ltb, is_empty,
  ◌==◌, ℤ, ◌-ℤ◌, abs, all, All, arith, Bool-cases, inl, inr, ◌≢◌, not_ltb→le, le→not_ltb,
}
use odoo_cloudflare_email.Text.{Text, Bytes, codes, strip, utf8}
use odoo_cloudflare_email.Text.Equality.{text_eq_iff, text_eq→eq, text_eq_refl}
use odoo_cloudflare_email.Text.Number.{parse_int}
use odoo_cloudflare_email.Api.Host.{Host, IsAscii}
use odoo_cloudflare_email.Api.Mime.{or_empty}
use odoo_cloudflare_email.Fetchmail.Signature.{
  signature_tolerance, signature_scheme, partition, signed_bytes, check_digest, check_issued,
  verify_signature,
}

-- A text without an equals sign.
abbrev NoEquals : Text → Type 0
NoEquals s = All (λ c. c ≢ b'=') s

partition-append : (s digest : Text) → NoEquals s → partition (s ++ b'=' ∷ digest) ≡ (s, digest)
unfolding partition
partition-append [] digest n = ground arith
partition-append (c ∷ s) digest (nc, n) = ground (arith, partition-append s digest n)

partition_split :
    (s : Text) → is_empty (partition s).1 ≡ false → s ≡ (partition s).0 ++ b'=' ∷ (partition s).1
unfolding partition
partition_split [] e = cc
partition_split (c ∷ s) e = elim (Bool-cases (c == b'=')) [
  | inl same ↦ ground (arith, same)
  | inr other ↦ ground (arith, other, partition_split s)
]

all-IsAscii : (s : Text) → (all (λ c. ltb c 128) s ≡ true) ↔ IsAscii s
all-IsAscii [] = (λ _. tt, λ _. refl)
all-IsAscii (c ∷ s) = ground (arith, (all-IsAscii s).0, (all-IsAscii s).1)

-- A request that the Worker with this secret signed at a time near `now`: the contract of the
-- webhook.
pub record IsSigned (h : Host) (hexdigest : Bytes → Bytes → Text)
    (secret timestamp signature : Text) (body : Bytes) (now : ℤ) : Type 0 where
  pub issued_at : ℤ
  pub issued : parse_int (strip timestamp) ≡ some issued_at
  pub recent : abs (now -ℤ issued_at) ≤ signature_tolerance
  pub digest : Text
  pub form : strip signature ≡ codes "v1=" ++ digest
  pub some_digest : digest ≢ []
  pub matches : h.lower digest ≡ hexdigest (utf8 secret) (signed_bytes (strip timestamp) body)
  pub ascii : IsAscii (h.lower digest)

eq_nil_of_is_empty : (s : Text) → (is_empty s ≡ true) ↔ (s ≡ [])
eq_nil_of_is_empty [] = (λ _. refl, λ _. refl)
eq_nil_of_is_empty (c ∷ s) = (λ e. cc, λ e. cc)

ne_nil : (s : Text) → (is_empty s ≡ false) ↔ (s ≢ [])
ne_nil [] = (λ e. cc, λ n. absurd (n refl))
ne_nil (c ∷ s) = (λ _. cc, λ _. refl)

module _ (h : Host) (hexdigest : Bytes → Bytes → Text) (secret timestamp : Text)
    (body : Bytes) where
  expected : Text
  expected = hexdigest (utf8 secret) (signed_bytes timestamp body)

  -- What the tests on a signature that has been stripped establish.
  record IsDigest (signature : Text) : Type 0 where
    digest : Text
    form : signature ≡ codes "v1=" ++ digest
    some_digest : digest ≢ []
    matches : h.lower digest ≡ expected
    ascii : IsAscii (h.lower digest)

  check_digest_sound :
      (signature : Text)
      → check_digest h hexdigest secret timestamp signature body ≡ true
      → IsDigest (strip signature)
  unfolding check_digest expected
  check_digest_sound signature e =
      let parts = partition (strip signature) in
      let filled : is_empty parts.1 ≡ false = ground arith in
      let scheme : parts.0 ≡ signature_scheme =
        text_eq→eq parts.0 signature_scheme (ground arith) in
      record {
        digest = parts.1;
        form =
            partition_split (strip signature) filled
            ∙ ap (λ (s : Text). s ++ b'=' ∷ parts.1) scheme;
        some_digest = (ne_nil parts.1).0 filled;
        matches = sym (text_eq→eq _ (h.lower parts.1) (ground arith));
        ascii = (all-IsAscii (h.lower parts.1)).0 (ground arith);
      }

  check_digest_complete :
      (signature : Text)
      → IsDigest (strip signature)
      → check_digest h hexdigest secret timestamp signature body ≡ true
  unfolding check_digest expected
  check_digest_complete signature d =
      let parted : partition (strip signature) ≡ (signature_scheme, d.digest) =
        ap partition d.form ∙ partition-append signature_scheme d.digest (omega arith) in
      rw parted (
        ground (
          arith,
          (ne_nil d.digest).1 d.some_digest,
          (all-IsAscii (h.lower d.digest)).1 d.ascii,
          (text_eq_iff (hexdigest (utf8 secret) (signed_bytes timestamp body)) (h.lower d.digest)).1
              (sym d.matches),
          text_eq_refl signature_scheme,
        ))

module _ (h : Host) (hexdigest : Bytes → Bytes → Text) where
  check_issued_sound :
      (issued : Option ℤ) (secret timestamp signature : Text) (body : Bytes) (now : ℤ)
      → check_issued h hexdigest issued secret timestamp signature body now ≡ true
      → (issued_at : ℤ) × (issued ≡ some issued_at)
        × (abs (now -ℤ issued_at) ≤ signature_tolerance)
        × (check_digest h hexdigest secret timestamp signature body ≡ true)
  unfolding check_issued
  check_issued_sound none secret timestamp signature body now e = cc
  check_issued_sound (some issued_at) secret timestamp signature body now e =
      elim (Bool-cases (ltb signature_tolerance (abs (now -ℤ issued_at)))) [
        | inl late ↦ cc (rw late at e)
        | inr recent ↦ (
          issued_at,
          refl,
          not_ltb→le signature_tolerance (abs (now -ℤ issued_at)) recent,
          rw recent at e,
        )
      ]

  check_issued_complete :
      (secret timestamp signature : Text) (body : Bytes) (now : ℤ)
      → IsSigned h hexdigest secret timestamp signature body now
      → check_issued h hexdigest
          (parse_int (strip timestamp))
          secret
          (strip timestamp)
          signature
          body
          now
        ≡ true
  unfolding check_issued
  check_issued_complete secret timestamp signature body now d = rw (d.issued) (
      rw (le→not_ltb (abs (now -ℤ d.issued_at)) signature_tolerance d.recent) (
        check_digest_complete h hexdigest secret (strip timestamp) body signature (
          unfold expected in
          record {
            digest = d.digest;
            form = d.form;
            some_digest = d.some_digest;
            matches = d.matches;
            ascii = d.ascii;
          })))

  -- A signature is accepted exactly when the server has a secret, both headers are there, and the
  -- request is signed: the timestamp is a whole number within 300 seconds of `now`, and the stripped
  -- signature is `v1=` and a digest that in lower case is ASCII and is the digest of the stripped
  -- timestamp, a dot and the body under the secret.
  pub verify_signature-IsSigned_iff :
      (secret timestamp signature : Option Text) (body : Bytes) (now : ℤ)
      → (verify_signature h hexdigest secret timestamp signature body now ≡ true) ↔ (
          (or_empty secret ≢ [])
          × (or_empty timestamp ≢ [])
          × (or_empty signature ≢ [])
          × IsSigned h hexdigest
              (or_empty secret)
              (or_empty timestamp)
              (or_empty signature)
              body
              now)
  unfolding verify_signature
  verify_signature-IsSigned_iff secret timestamp signature body now =
      let s = or_empty secret in
      let t = or_empty timestamp in
      let g = or_empty signature in
      (
        λ e.
            let s_filled : is_empty s ≡ false = ground arith in
            let t_filled : is_empty t ≡ false = ground arith in
            let g_filled : is_empty g ≡ false = ground arith in
            let (issued_at, issued, recent, checked) =
              check_issued_sound (parse_int (strip t)) s (strip t) g body now (ground arith) in
            let d = check_digest_sound h hexdigest s (strip t) body g checked in
            (
              (ne_nil s).0 s_filled,
              (ne_nil t).0 t_filled,
              (ne_nil g).0 g_filled,
              unfold expected in
                  record {
                    issued_at = issued_at;
                    issued = issued;
                    recent = recent;
                    digest = d.digest;
                    form = d.form;
                    some_digest = d.some_digest;
                    matches = d.matches;
                    ascii = d.ascii;
                  },
            ),
        λ (s_ne, t_ne, g_ne, signed). ground (
          arith,
          (ne_nil s).1 s_ne,
          (ne_nil t).1 t_ne,
          (ne_nil g).1 g_ne,
          check_issued_complete s t g body now signed,
        ),
      )
