-- ===== src/Fetchmail/Forms.antt =====
-- What the form of a server shows, and the polling cron: `_compute_cloudflare_webhook_url`,
-- `_compute_server_type_info`, `onchange_server_type` and `_update_cron`. The text of the contract is
-- a parameter, and so are what core does with servers of other types and the cron's `toggle`.
pub mod Polling
use mathlib.Core.Option
use mathlib.Core.List.{reverse}
use odoo_cloudflare_email.Prelude.{
  ℕ, Bool, true, false, not, ◌&&◌, ◌||◌, Option, none, some, List, [], ◌∷◌, ◌++◌, map,
  if◌then◌else◌, ◌==◌,
}
use odoo_cloudflare_email.Text.{Text, codes, text_eq, contains}
use odoo_cloudflare_email.Api.Mime.{or_empty}
use odoo_cloudflare_email.Fetchmail.Server.{Server, cloudflare_type, done_state}
use odoo_cloudflare_email.Fetchmail.Credentials.{is_filled}

unfoldable pub inbound_path : Text
inbound_path = codes "/mail_cloudflare/inbound"

-- `text.rstrip("/")`.
unfoldable pub drop_slashes : Text → Text
drop_slashes [] = []
drop_slashes (c ∷ s) = if c == b'/' then drop_slashes s else c ∷ s

unfoldable pub rstrip_slashes : Text → Text
unfolding drop_slashes
rstrip_slashes s = reverse (drop_slashes (reverse s))

-- `_compute_cloudflare_webhook_url` of one server, from the parameter web.base.url.
unfoldable pub webhook_url : Option Text → Server → Option Text
unfolding rstrip_slashes inbound_path
webhook_url base_url s =
    if text_eq s.server_type cloudflare_type && is_filled s.webhook_key
    then some (
        rstrip_slashes (or_empty base_url)
        ++ (inbound_path ++ (codes "/" ++ or_empty s.webhook_key)))
    else none

-- `_compute_server_type_info` of one server.
unfoldable pub server_type_info : Text → (Server → Text) → Server → Text
server_type_info notice core_info s =
    if text_eq s.server_type cloudflare_type then notice else core_info s

-- The fields of the form that `onchange_server_type` sets.
pub record Form : Type 0 where
  pub server_type : Text
  pub server : Option Text
  pub port : ℕ
  pub is_ssl : Bool
  pub user : Option Text
  pub password : Option Text
  pub configuration : Text

unfoldable pub onchange_server_type : Text → (Form → Form) → Form → Form
onchange_server_type contract core_onchange f =
    if not (text_eq f.server_type cloudflare_type) then core_onchange f else record f {
      server = none;
      port = 0;
      is_ssl = false;
      user = none;
      password = none;
      configuration = contract;
    }

-- The domain of the cron: confirmed servers that are fetched from.
unfoldable pub is_polled : Server → Bool
is_polled s =
    text_eq s.state done_state
    && not (contains s.server_type (codes "local" ∷ codes "cloudflare" ∷ []))

-- `_update_cron`; the flag is the context's `fetchmail_cron_running`, and none is a cron that is not
-- there, whose `ValueError` is ignored.
unfoldable pub update_cron : {C : Type 0} → ((Server → Bool) → C → C) → Bool → Option C → Option C
unfolding is_polled
update_cron toggle cron_running cron =
    if cron_running then cron else Option.map (toggle is_polled) cron
