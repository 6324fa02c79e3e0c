-- ===== src/Tests/Servers.antt =====
-- Envelopes, credentials and confirmations.
use odoo_cloudflare_email.Prelude.{
  ℕ, ◌≡◌, ◌↔◌, refl, true, false, none, some, List, [], ◌∷◌, ◌++◌, All,
}
use odoo_cloudflare_email.Text.{Text, Bytes, codes, utf8, text_eq, contains, strip}
use odoo_cloudflare_email.Text.Number.{decimal}
use odoo_cloudflare_email.Errors.{Result, ok}
use odoo_cloudflare_email.Fetchmail.Server.{Server, cloudflare_type}
use odoo_cloudflare_email.Fetchmail.Envelope.{prepare_message, existing_header_names, at_line_end}
use odoo_cloudflare_email.Fetchmail.Envelope.Names.{IsNewName, prepare_message-names}
use odoo_cloudflare_email.Fetchmail.Credentials.{Values, no_values, is_cloudflare, write}
use odoo_cloudflare_email.Fetchmail.Credentials.Kept.{Each, IsEquipped, write-IsEquipped}
use odoo_cloudflare_email.Fetchmail.Confirm.{button_confirm_login}
use odoo_cloudflare_email.Fetchmail.Confirm.Ready.{Confirms, button_confirm_login-Confirms_iff}
use odoo_cloudflare_email.Tests.Inbound.{worker_server, mail}

abbrev prepared : Bytes
prepared = codes "Delivered-To: a@x.org\r\nReturn-Path: <>\r\n" ++ mail

prepared_mail : prepare_message (λ t. t) mail (some []) (some (codes " a@x.org")) ≡ ok prepared
unfolding prepare_message utf8 strip contains text_eq
prepared_mail = refl

starts_with_field : at_line_end mail ≡ false
unfolding at_line_end
starts_with_field = refl

prepare_message-names_example :
    (names : List Text) × All (IsNewName (existing_header_names mail)) names
    × (existing_header_names prepared ≡ names ++ existing_header_names mail)
    × ((front : Bytes) × (prepared ≡ front ++ mail))
prepare_message-names_example =
    prepare_message-names (λ t. t) mail (some []) (some (codes " a@x.org")) prepared prepared_mail
      starts_with_field

abbrev tokens : ℕ → Text
tokens n = codes "token" ++ decimal n

abbrev imap_server : Server
imap_server = record worker_server {
  server_type = codes "imap";
  webhook_key = some (codes "old");
  webhook_secret = none;
}

abbrev switch : Values
switch = record no_values { server_type = some cloudflare_type }

switch_type : is_cloudflare switch.server_type ≡ true
unfolding is_cloudflare text_eq
switch_type = refl

write-IsEquipped_example :
    Each IsEquipped (imap_server ∷ []) (write tokens [] switch (imap_server ∷ []) 0).0
write-IsEquipped_example =
    write-IsEquipped tokens [] switch (imap_server ∷ []) 0 (λ n. refl) switch_type refl refl

abbrev draft_server : Server
draft_server = record worker_server { state = codes "draft" }

confirmed_draft :
    button_confirm_login
      (λ t. (codes "https", none))
      (some (codes "https://x.org"))
      (λ s. ok s)
      (draft_server ∷ imap_server ∷ [])
    ≡ ok (worker_server ∷ [], imap_server ∷ [])
unfolding button_confirm_login text_eq
confirmed_draft = refl

button_confirm_login-Confirms_iff_example :
    (button_confirm_login
        (λ t. (codes "https", none))
        (some (codes "https://x.org"))
        (λ s. ok s)
        (draft_server ∷ imap_server ∷ [])
      ≡ ok (worker_server ∷ [], imap_server ∷ []))
    ↔ ((left : List Server) × Confirms
          (λ t. (codes "https", none))
          (some (codes "https://x.org"))
          (draft_server ∷ imap_server ∷ [])
          (worker_server ∷ [])
          left
        × (◌≡◌ {A = Result (List Server)} (ok left) (ok (imap_server ∷ []))))
button_confirm_login-Confirms_iff_example =
    button_confirm_login-Confirms_iff (λ t. (codes "https", none)) (some (codes "https://x.org"))
      (λ s. ok s) (draft_server ∷ imap_server ∷ []) (worker_server ∷ []) (imap_server ∷ [])
