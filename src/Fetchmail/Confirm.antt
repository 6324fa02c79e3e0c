-- ===== src/Fetchmail/Confirm.antt =====
-- `connect`, `_cloudflare_check_base_url`, `button_confirm_login` and `fetch_mail`. `urlsplit` is a
-- parameter, with its scheme and host as result; what core does with the servers of other types is
-- one too.
pub mod Ready
use odoo_cloudflare_email.Prelude.{
  ℕ, Bool, true, false, not, ◌&&◌, ◌||◌, Option, none, some, List, [], ◌∷◌, ◌++◌, if◌then◌else◌,
}
use odoo_cloudflare_email.Text.{Text, codes, text_eq, contains}
use odoo_cloudflare_email.Errors.{
  Exception, user_error, UserError, archived_server, no_credentials, insecure_base_url, Result, ok,
  err, ◌>>=◌, ◌>>◌,
}
use odoo_cloudflare_email.Api.Mime.{or_empty}
use odoo_cloudflare_email.Fetchmail.Server.{Server, cloudflare_type, done_state}
use odoo_cloudflare_email.Fetchmail.Credentials.{Values, no_values, write_fields, is_filled}

unfoldable pub loopback_hosts : List Text
loopback_hosts = codes "localhost" ∷ codes "127.0.0.1" ∷ codes "::1" ∷ []

-- `self.filtered(…)` and the rest of the set.
unfoldable pub cloudflare_servers : List Server → List Server
cloudflare_servers [] = []
cloudflare_servers (s ∷ servers) =
    let rest = cloudflare_servers servers in
    if text_eq s.server_type cloudflare_type then s ∷ rest else rest

unfoldable pub other_servers : List Server → List Server
other_servers [] = []
other_servers (s ∷ servers) =
    let rest = other_servers servers in
    if text_eq s.server_type cloudflare_type then rest else s ∷ rest

unfoldable pub host_in : Option Text → List Text → Bool
host_in none hosts = false
host_in (some host) hosts = contains host hosts

-- The two kinds of address that are accepted.
unfoldable pub is_secure : Text × Option Text → Bool
unfolding host_in loopback_hosts
is_secure (scheme, hostname) =
    text_eq scheme (codes "https")
    || text_eq scheme (codes "http") && host_in hostname loopback_hosts

module _ (urlsplit : Text → Text × Option Text) (base_url : Option Text) where
  -- `_cloudflare_check_base_url`.
  unfoldable pub check_base_url : Result (Unit {0})
  unfolding is_secure
  check_base_url =
      if is_secure (urlsplit (or_empty base_url))
      then ok tt
      else err (user_error (insecure_base_url (or_empty base_url)))

  -- One round of the loop of `button_confirm_login`; the write names no type, so it is core's.
  unfoldable pub confirm : Server → Result Server
  unfolding check_base_url write_fields
  confirm s =
      if not (is_filled s.webhook_key && is_filled s.webhook_secret)
      then err (user_error (no_credentials s.id))
      else (check_base_url >> ok (write_fields (record no_values { state = some done_state }) s))

  unfoldable pub confirm_loop : List Server → Result (List Server)
  unfolding confirm
  confirm_loop [] = ok []
  confirm_loop (s ∷ servers) = do
    confirmed ← confirm s
    rest ← confirm_loop servers
    ok (confirmed ∷ rest)

  -- `button_confirm_login`: the Cloudflare servers, then core's part of the others. An exception
  -- undoes the writes with the transaction.
  unfoldable pub button_confirm_login :
      (List Server → Result (List Server)) → List Server → Result (List Server × List Server)
  unfolding confirm_loop cloudflare_servers other_servers
  button_confirm_login confirm_others servers = do
    confirmed ← confirm_loop (cloudflare_servers servers)
    others ← confirm_others (other_servers servers)
    ok (confirmed, others)

-- `connect` of one server: for a Cloudflare server there is nothing to open.
unfoldable pub connect :
    {A : Type 0} → (Server → Bool → Result (Option A)) → Server → Bool → Result (Option A)
connect connect_other s allow_archived =
    if not (text_eq s.server_type cloudflare_type)
    then connect_other s allow_archived
    else if not allow_archived && not s.active
    then err (user_error (archived_server s.id))
    else ok none

-- `fetch_mail`: core fetches for the other servers.
unfoldable pub fetch_mail : {A : Type 0} → (List Server → A) → List Server → A
unfolding other_servers
fetch_mail fetch_others servers = fetch_others (other_servers servers)
