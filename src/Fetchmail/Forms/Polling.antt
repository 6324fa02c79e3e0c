-- ===== src/Fetchmail/Forms/Polling.antt =====
-- When the polling cron runs.
use mathlib.Core.Option
use odoo_cloudflare_email.Prelude.{
  ◌≡◌, refl, ◌∙◌, ap, Bool, true, false, ◌||◌, some, List, [], ◌∷◌, All, arith,
}
use odoo_cloudflare_email.Text.{contains}
use odoo_cloudflare_email.Text.Equality.{text_eq_refl}
use odoo_cloudflare_email.Fetchmail.Server.{Server, cloudflare_type}
use odoo_cloudflare_email.Fetchmail.Forms.{is_polled, update_cron}

-- Whether some server passes a test.
abbrev pub any : (Server → Bool) → List Server → Bool
any test [] = false
any test (s ∷ servers) = test s || any test servers

any-none :
    (servers : List Server) → All (λ s. is_polled s ≡ false) servers → any is_polled servers ≡ false
any-none [] p = refl
any-none (s ∷ servers) (e, p) = rw e (any-none servers p)

cloudflare-is_polled : (s : Server) → s.server_type ≡ cloudflare_type → is_polled s ≡ false
unfolding is_polled contains
cloudflare-is_polled s e = rw e (ground (arith, text_eq_refl cloudflare_type))

All-is_polled :
    (servers : List Server)
    → All (λ s. s.server_type ≡ cloudflare_type) servers
    → All (λ s. is_polled s ≡ false) servers
All-is_polled [] p = tt
All-is_polled (s ∷ servers) (e, p) = (cloudflare-is_polled s e, All-is_polled servers p)

-- Where `toggle` makes the cron active exactly when the table has a server of the domain, a table of
-- Cloudflare servers turns the cron off on every update outside the cron, and no update inside the
-- cron changes it.
pub update_cron-cloudflare :
    {C : Type 0} (active : C → Bool) (toggle : (Server → Bool) → C → C) (servers : List Server)
    (cron : C)
    → ((test : Server → Bool) (c : C) → active (toggle test c) ≡ any test servers)
    → All (λ s. s.server_type ≡ cloudflare_type) servers
    → (Option.map active (update_cron toggle false (some cron)) ≡ some false)
      × (update_cron toggle true (some cron) ≡ some cron)
unfolding update_cron
update_cron-cloudflare active toggle servers cron law kinds =
    (ap some (law is_polled cron ∙ any-none servers (All-is_polled servers kinds)), refl)
