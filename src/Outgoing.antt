-- ===== src/Outgoing.antt =====
-- mail_cloudflare/models/ir_mail_server.py: the records of `ir.mail_server`, what the forms fill in,
-- the constraint on the credentials and the size limit. The children hold `connect` and
-- `test_smtp_connection`. What core does with servers of other types is a parameter.
pub mod Credentials
pub mod Connect
pub mod Probe
use odoo_cloudflare_email.Prelude.{
  ℕ, Bool, true, false, not, Option, none, some, List, [], ◌∷◌, if◌then◌else◌, is_empty, ◌==◌,
}
use odoo_cloudflare_email.Text.{Text, codes, text_eq}
use odoo_cloudflare_email.Errors.{
  user_error, no_account_id, no_api_token, no_from_filter, Result, ok, err, ◌>>=◌, ◌>>◌,
}
use odoo_cloudflare_email.Api.Mime.{or_empty}

-- The fields that the code reads or writes; an empty field is none. A size is a number of hundredths
-- of a MiB, where the source has a float.
pub record MailServer : Type 0 where
  pub id : ℕ
  pub name : Text
  pub display_name : Text
  pub active : Bool
  pub smtp_authentication : Text
  pub cloudflare_account_id : Option Text
  pub cloudflare_api_token : Option Text
  pub from_filter : Option Text
  pub smtp_host : Option Text
  pub smtp_port : Option ℕ
  pub smtp_encryption : Text
  pub max_email_size : ℕ
  pub smtp_authentication_info : Text

abbrev pub cloudflare_authentication : Text
cloudflare_authentication = codes "cloudflare"

-- `MAX_EMAIL_SIZE_MB`, which is 5.0.
abbrev pub max_email_size_mb : ℕ
max_email_size_mb = 500

unfoldable pub is_cloudflare : MailServer → Bool
is_cloudflare s = text_eq s.smtp_authentication cloudflare_authentication

-- The two parts of a record set.
unfoldable pub cloudflare_servers : List MailServer → List MailServer
cloudflare_servers [] = []
cloudflare_servers (s ∷ servers) =
    let rest = cloudflare_servers servers in if is_cloudflare s then s ∷ rest else rest

unfoldable pub other_servers : List MailServer → List MailServer
other_servers [] = []
other_servers (s ∷ servers) =
    let rest = other_servers servers in if is_cloudflare s then rest else s ∷ rest

-- `_compute_smtp_authentication_info` of one record; the notice is a text of the form.
unfoldable pub compute_smtp_authentication_info :
    Text → (MailServer → MailServer) → MailServer → MailServer
unfolding is_cloudflare
compute_smtp_authentication_info notice core_compute s =
    if is_cloudflare s then record s { smtp_authentication_info = notice } else core_compute s

-- `_onchange_encryption`.
unfoldable pub onchange_encryption : (MailServer → MailServer) → MailServer → MailServer
unfolding is_cloudflare
onchange_encryption core_onchange s = if is_cloudflare s then s else core_onchange s

-- `_onchange_smtp_authentication_cloudflare`.
unfoldable pub onchange_smtp_authentication : MailServer → MailServer
unfolding is_cloudflare
onchange_smtp_authentication s =
    if is_cloudflare s
    then record s {
      smtp_host = none;
      smtp_port = none;
      smtp_encryption = codes "none";
      max_email_size = max_email_size_mb;
    }
    else s

abbrev pub is_filled : Option Text → Bool
is_filled o = not (is_empty (or_empty o))

-- One round of the loop of `_check_cloudflare_credentials`.
unfoldable pub check_server : MailServer → Result (Unit {0})
check_server s =
    if not (is_filled s.cloudflare_account_id)
    then err (user_error (no_account_id s.name))
    else if not (is_filled s.cloudflare_api_token)
    then err (user_error (no_api_token s.name))
    else if not (is_filled s.from_filter)
    then err (user_error (no_from_filter s.name))
    else ok tt

unfoldable pub check_loop : List MailServer → Result (Unit {0})
unfolding check_server
check_loop [] = ok tt
check_loop (s ∷ servers) = check_server s >> check_loop servers

-- `_check_cloudflare_credentials`.
unfoldable pub check_credentials : List MailServer → Result (Unit {0})
unfolding check_loop cloudflare_servers
check_credentials servers = check_loop (cloudflare_servers servers)

-- `_get_max_email_size`.
unfoldable pub get_max_email_size : (MailServer → ℕ) → MailServer → ℕ
unfolding is_cloudflare
get_max_email_size core_size s =
    if is_cloudflare s
    then (if s.max_email_size == 0 then max_email_size_mb else s.max_email_size)
    else core_size s
