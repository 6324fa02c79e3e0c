-- ===== src/Outgoing/Connect.antt =====
-- `_cloudflare_session` and `connect`. The table of servers, core's `_find_mail_server` and core's
-- `connect` are parameters; `C` is the connections that core opens.
pub mod Chosen
pub mod Batch
use odoo_cloudflare_email.Prelude.{
  ℕ, Bool, true, false, not, ◌&&◌, Option, none, some, List, [], ◌∷◌, if◌then◌else◌, is_empty, ◌==◌,
}
use odoo_cloudflare_email.Text.{Text, codes}
use odoo_cloudflare_email.Errors.{
  user_error, archived_server, missing_record, Result, ok, err, ◌>>=◌,
}
use odoo_cloudflare_email.Api.Mime.{or_empty}
use odoo_cloudflare_email.Api.Session.{Session, new_session}
use odoo_cloudflare_email.Outgoing.{MailServer, is_cloudflare}

-- The arguments of `connect`; those that only core reads are one value.
pub record ConnectArgs (A : Type 0) : Type 0 where
  pub host : Option Text
  pub smtp_from : Option Text
  pub mail_server_id : Option ℕ
  pub allow_archived : Bool
  pub for_core : A

-- What `connect` returns.
pub data Connection (C : Type 0) : Type 0 where
  nothing : Connection C
  session : Session → Connection C
  opened : C → Connection C

-- A field of a record as an f-string writes it: an empty one is False.
unfoldable pub formatted : Option Text → Text
formatted none = codes "False"
formatted (some t) = t

-- `_cloudflare_session`.
unfoldable pub cloudflare_session : MailServer → Option Text → Session
unfolding formatted
cloudflare_session s smtp_from =
    new_session (formatted s.cloudflare_account_id) (formatted s.cloudflare_api_token) s.from_filter
      smtp_from s.display_name

-- `browse(id)`: reading a field of a record that is not there raises.
unfoldable pub browse : ℕ → List MailServer → Result MailServer
browse id [] = err (user_error (missing_record id))
browse id (s ∷ servers) = if s.id == id then ok s else browse id servers

-- The truth value of an id.
abbrev pub given_id : Option ℕ → Option ℕ
given_id none = none
given_id (some n) = if n == 0 then none else some n

module _ {A C : Type 0} (table : List MailServer)
    (find_mail_server : Option Text → Option MailServer × Option Text)
    (core_connect : ConnectArgs A → Result C) where
  -- The server that is used, with the sender address that goes with it.
  unfoldable pub resolve_with : Option ℕ → ConnectArgs A → Result (Option MailServer × Option Text)
  unfolding browse
  resolve_with (some id) args = do server ← browse id table; ok (some server, args.smtp_from)
  resolve_with none args = ok (
      if is_empty (or_empty args.host)
      then find_mail_server args.smtp_from
      else (none, args.smtp_from))

  unfoldable pub resolve : ConnectArgs A → Result (Option MailServer × Option Text)
  unfolding resolve_with
  resolve args = resolve_with (given_id args.mail_server_id) args

  open_core : ConnectArgs A → Result (Connection C)
  open_core args = do c ← core_connect args; ok (opened c)

  -- What follows the choice of the server.
  unfoldable pub connect_to :
      Option MailServer → Option Text → ConnectArgs A → Result (Connection C)
  unfolding open_core
  connect_to none smtp_from args = open_core (record args { smtp_from = smtp_from })
  connect_to (some s) smtp_from args =
      if is_cloudflare s
      then (if not args.allow_archived && not s.active
          then err (user_error (archived_server s.id))
          else ok (session (cloudflare_session s smtp_from)))
      else open_core (record args { smtp_from = smtp_from; mail_server_id = some s.id })

  -- `connect`; in a test nothing is opened.
  unfoldable pub connect : Bool → ConnectArgs A → Result (Connection C)
  unfolding resolve connect_to
  connect testing args =
      if testing
      then ok nothing
      else do (server, smtp_from) ← resolve args; connect_to server smtp_from args
