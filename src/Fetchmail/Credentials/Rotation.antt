-- ===== src/Fetchmail/Credentials/Rotation.antt =====
-- A new secret ends the old one.
use odoo_cloudflare_email.Prelude.{
  ℕ, suc, ◌≤◌, ◌≡◌, ◌≢◌, refl, ap, sym, ◌∙◌, true, false, Option, some, List, [], ◌∷◌, All,
  All-weaken, Bool-cases, inl, inr, arith, ℤ,
}
use odoo_cloudflare_email.Text.{Text, Bytes, utf8}
use odoo_cloudflare_email.Api.Host.{Host}
use odoo_cloudflare_email.Api.Mime.{or_empty}
use odoo_cloudflare_email.Fetchmail.Server.{Server}
use odoo_cloudflare_email.Fetchmail.Signature.{verify_signature}
use odoo_cloudflare_email.Fetchmail.Signature.Spec.{IsSigned, verify_signature-IsSigned_iff}
use odoo_cloudflare_email.Fetchmail.Credentials.{
  regenerate, write, write_all, write_fields, is_cloudflare,
}

module _ (h : Host) (hexdigest : Bytes → Bytes → Text) where
  -- No message has the same digest under both secrets.
  abbrev pub AreApart : Text → Text → Type 0
  AreApart old new = (message : Bytes) → hexdigest (utf8 old) message ≢ hexdigest (utf8 new) message

  -- The new server is the old one but for its secret, and takes no request that the old one took.
  pub record IsRotated (old new : Server) : Type 0 where
    pub kept : new ≡ record old { webhook_secret = new.webhook_secret }
    pub rejects :
        (timestamp signature : Option Text) (body : Bytes) (now : ℤ)
        → verify_signature h hexdigest old.webhook_secret timestamp signature body now ≡ true
        → verify_signature h hexdigest new.webhook_secret timestamp signature body now ≡ false

  unfoldable pub AreRotated : List Server → List Server → Type 0
  AreRotated [] [] = Unit
  AreRotated (s ∷ servers) (t ∷ rest) = IsRotated s t × AreRotated servers rest
  AreRotated _ _ = ⊥

  IsSigned-AreApart :
      (old new timestamp signature : Text) (body : Bytes) (now : ℤ)
      → AreApart old new
      → IsSigned h hexdigest old timestamp signature body now
      → IsSigned h hexdigest new timestamp signature body now
      → ⊥
  IsSigned-AreApart old new timestamp signature body now apart a b =
      let same : a.digest ≡ b.digest = cc (sym a.form ∙ b.form) in
      apart _ (sym a.matches ∙ (ap h.lower same ∙ b.matches))

  secret-rejects :
      (old new timestamp signature : Option Text) (body : Bytes) (now : ℤ)
      → AreApart (or_empty old) (or_empty new)
      → verify_signature h hexdigest old timestamp signature body now ≡ true
      → verify_signature h hexdigest new timestamp signature body now ≡ false
  secret-rejects old new timestamp signature body now apart e =
      elim (Bool-cases (verify_signature h hexdigest new timestamp signature body now)) [
        | inr f ↦ f
        | inl f ↦
            let (_, _, _, a) =
              (verify_signature-IsSigned_iff h hexdigest old timestamp signature body now).0 e in
            let (_, _, _, b) =
              (verify_signature-IsSigned_iff h hexdigest new timestamp signature body now).0 f in
            absurd (
              IsSigned-AreApart (or_empty old) (or_empty new) (or_empty timestamp)
                (or_empty signature) body now apart a b)
      ]

  -- A request that was signed with the secret that a server had is rejected once the secret is
  -- regenerated, and nothing else of the server changes, its key and so its URL included. The tokens
  -- to come are taken to give other digests than the secrets that are replaced.
  pub regenerate-AreRotated :
      (token : ℕ → Text) (contract : Text) (servers : List Server) (n : ℕ)
      → All (λ s. (k : ℕ) → n ≤ k → AreApart (or_empty s.webhook_secret) (token k)) servers
      → AreRotated servers (regenerate token contract servers n).0
  unfolding AreRotated regenerate write write_all write_fields is_cloudflare
  regenerate-AreRotated token contract [] n apart = tt
  regenerate-AreRotated token contract (s ∷ servers) n (first, apart) = (
    record {
      kept = refl;
      rejects = λ timestamp signature body now e.
          secret-rejects s.webhook_secret (some (token n)) timestamp signature body now
            (first n (omega arith)) e;
    },
    regenerate-AreRotated token contract servers (suc n)
        (All-weaken servers (λ s' p k le. p k (omega (arith, le))) apart),
  )
