-- ===== src/Fetchmail/Credentials/Kept.antt =====
-- Credentials are made once and kept.
use odoo_cloudflare_email.Prelude.{
  ℕ, suc, ◌+◌, length, ap, ◌≡◌, refl, true, false, Option, none, some, List, [], ◌∷◌, is_empty,
  Bool-cases, inl, inr, arith,
}
use odoo_cloudflare_email.Text.{Text}
use odoo_cloudflare_email.Text.Equality.{text_eq→eq}
use odoo_cloudflare_email.Fetchmail.Server.{Server, cloudflare_type}
use odoo_cloudflare_email.Fetchmail.Credentials.{
  Values, field_after, is_cloudflare, write_fields, is_filled, credential, write_server, write_loop,
  write_all, write, regenerate,
}

-- A server before and after it became a Cloudflare server.
pub record IsEquipped (before after : Server) : Type 0 where
  pub same_id : after.id ≡ before.id
  pub kind : after.server_type ≡ cloudflare_type
  pub key_filled : is_filled after.webhook_key ≡ true
  pub secret_filled : is_filled after.webhook_secret ≡ true
  pub key_kept : is_filled before.webhook_key ≡ true → after.webhook_key ≡ before.webhook_key
  pub secret_kept :
      is_filled before.webhook_secret ≡ true → after.webhook_secret ≡ before.webhook_secret

-- A relation between the members of two lists at each place.
abbrev pub Each : (Server → Server → Type 0) → List Server → List Server → Type 0
Each P [] [] = Unit
Each P (s ∷ before) (t ∷ after) = P s t × Each P before after
Each P _ _ = ⊥

-- A server before and after its secret was made anew.
pub record IsRekeyed (before after : Server) : Type 0 where
  pub secret : Text
  pub only_secret : after ≡ record before { webhook_secret = some secret }

is_cloudflare-type : (o : Option Text) → is_cloudflare o ≡ true → o ≡ some cloudflare_type
unfolding is_cloudflare
is_cloudflare-type none e = cc
is_cloudflare-type (some t) e = ap some (text_eq→eq t cloudflare_type e)

module _ (token : ℕ → Text) (contract : Text) where
  -- A credential that no value names: filled behind the write, and the old one where that was so.
  pub credential-filled :
      (old : Option Text) (n : ℕ)
      → ((k : ℕ) → is_empty (token k) ≡ false)
      → is_filled (field_after (credential token contract old none n).0 old) ≡ true
  unfolding credential
  credential-filled old n filled = elim (Bool-cases (is_filled old)) [
    | inl e ↦ rw (e, credential) e
    | inr e ↦ rw (e, credential) (rw (filled n) refl)
  ]

  credential-kept :
      (old : Option Text) (n : ℕ)
      → is_filled old ≡ true
      → field_after (credential token contract old none n).0 old ≡ old
  unfolding credential
  credential-kept old n e = rw (e, credential) refl

  module _ (filled : (k : ℕ) → is_empty (token k) ≡ false) (v : Values)
      (kind : v.server_type ≡ some cloudflare_type) (no_key : v.webhook_key ≡ none)
      (no_secret : v.webhook_secret ≡ none) where
    write_server-IsEquipped :
        (s : Server) (n : ℕ) → IsEquipped s (write_server token contract v s n).0
    unfolding write_server write_fields
    write_server-IsEquipped s n =
        let n' = (credential token contract s.webhook_key none n).1 in
        record {
          same_id = refl;
          kind = rw kind refl;
          key_filled = rw no_key (credential-filled s.webhook_key n filled);
          secret_filled = rw (no_key, no_secret) (credential-filled s.webhook_secret n' filled);
          key_kept = λ e. rw no_key (credential-kept s.webhook_key n e);
          secret_kept = λ e. rw (no_key, no_secret) (credential-kept s.webhook_secret n' e);
        }

    write_loop-IsEquipped :
        (servers : List Server) (n : ℕ)
        → Each IsEquipped servers (write_loop token contract v servers n).0
    unfolding write_loop
    write_loop-IsEquipped [] n = tt
    write_loop-IsEquipped (s ∷ servers) n = (
      write_server-IsEquipped s n,
      write_loop-IsEquipped servers (write_server token contract v s n).1,
    )

  -- A write that makes servers Cloudflare ones and names no credential, where no token that is drawn
  -- is empty: each server then has a key and a secret, and those that it had are kept.
  pub write-IsEquipped :
      (v : Values) (servers : List Server) (n : ℕ)
      → ((k : ℕ) → is_empty (token k) ≡ false)
      → is_cloudflare v.server_type ≡ true
      → v.webhook_key ≡ none
      → v.webhook_secret ≡ none
      → Each IsEquipped servers (write token contract v servers n).0
  unfolding write
  write-IsEquipped v servers n filled kind no_key no_secret = rw kind (
      write_loop-IsEquipped filled v (is_cloudflare-type v.server_type kind) no_key no_secret
        servers n)

  -- Every server's secret is replaced and every other field stays; as many tokens are drawn as there
  -- are servers.
  pub regenerate-IsRekeyed :
      (servers : List Server) (n : ℕ)
      → Each IsRekeyed servers (regenerate token contract servers n).0
        × ((regenerate token contract servers n).1 ≡ n + length servers)
  unfolding regenerate write write_all write_fields is_cloudflare
  regenerate-IsRekeyed [] n = (tt, omega arith)
  regenerate-IsRekeyed (s ∷ servers) n =
      let (each, drawn) = regenerate-IsRekeyed servers (suc n) in
      ((record { secret = token n; only_secret = refl }, each), omega (arith, drawn))
