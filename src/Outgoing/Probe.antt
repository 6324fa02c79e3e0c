-- ===== src/Outgoing/Probe.antt =====
-- `test_smtp_connection`. The network of the API, and core's test of the other servers with the sizes
-- that it finds, are parameters. The client action that is returned is its text.
-- An exception undoes the sizes that were set with the transaction.
pub mod Verified
use odoo_cloudflare_email.Prelude.{
  ℕ, Bool, true, false, Option, none, some, List, [], ◌∷◌, map, if◌then◌else◌, is_empty,
}
use odoo_cloudflare_email.Text.{Text}
use odoo_cloudflare_email.Json.{Json}
use odoo_cloudflare_email.Errors.{
  CloudflareEmailError, Exception, cloudflare, user_error, connection_failed, Result, ok, err,
  ◌>>=◌,
}
use odoo_cloudflare_email.Api.Response.{Outcome}
use odoo_cloudflare_email.Api.Token.{Get, HttpState, verify_token}
use odoo_cloudflare_email.Outgoing.{
  MailServer, max_email_size_mb, is_cloudflare, cloudflare_servers, other_servers,
}
use odoo_cloudflare_email.Outgoing.Connect.{formatted}

-- The text of the notification: that the test succeeded, or the name and size of each server; or
-- what core returned, where there is no Cloudflare server.
pub data Notice : Type 0 where
  successful : Notice
  sizes : List (Text × ℕ) → Notice
  by_core : Notice

-- The servers after the test, and the notification.
pub record Tested : Type 0 where
  pub servers : List MailServer
  pub notice : Notice

-- A `CloudflareEmailError` is shown as a `UserError`; another exception goes through.
unfoldable pub shown : Text → Exception → Exception
shown name (cloudflare e) = user_error (connection_failed name e.message)
shown name e = e

unfoldable pub show_error : Text → Result Json → Result (Unit {0})
unfolding shown
show_error name (ok result) = ok tt
show_error name (err e) = err (shown name e)

-- The size of a server after core's test.
abbrev pub set_size : (MailServer → ℕ) → MailServer → MailServer
set_size size s = record s { max_email_size = size s }

-- The servers in their order, those of Cloudflare with the known size and the others with core's.
unfoldable pub with_sizes : Bool → (MailServer → ℕ) → List MailServer → List MailServer
with_sizes autodetect core_size [] = []
with_sizes autodetect core_size (s ∷ servers) =
    let rest = with_sizes autodetect core_size servers in
    (if is_cloudflare s
      then (if autodetect then record s { max_email_size = max_email_size_mb } else s)
      else set_size core_size s)
    ∷ rest

abbrev pub details : List MailServer → List (Text × ℕ)
details = map (λ s. (s.name, s.max_email_size))

-- Core's test of the servers that are not Cloudflare's, where there are any; else the sizes stay.
unfoldable pub test_others :
    (List MailServer → Bool → Result (MailServer → ℕ))
    → Bool
    → List MailServer
    → Result (MailServer → ℕ)
test_others core_test autodetect others =
    if is_empty others then ok (λ s. s.max_email_size) else core_test others autodetect

module _ (network : List Get → Outcome) where
  -- The loop over the Cloudflare servers.
  unfoldable pub verify_loop : List MailServer → HttpState → Result (Unit {0}) × HttpState
  unfolding show_error
  verify_loop [] st = (ok tt, st)
  verify_loop (s ∷ servers) st =
      let (verified, st') = verify_token network true (formatted s.cloudflare_api_token) st in
      elim (show_error s.name verified) [ ok _ ↦ verify_loop servers st' | err e ↦ (err e, st') ]

  -- The part behind core's test of the other servers.
  unfoldable pub test_cloudflare :
      Bool → (MailServer → ℕ) → List MailServer → HttpState → Result Tested × HttpState
  unfolding verify_loop with_sizes
  test_cloudflare autodetect core_size servers st =
      let (verified, st') = verify_loop (cloudflare_servers servers) st in
      let after = with_sizes autodetect core_size servers in
      (
        verified >>= λ _. ok (record {
          servers = after;
          notice = if autodetect then sizes (details after) else successful;
        }),
        st',
      )

  unfoldable pub test_smtp_connection :
      (List MailServer → Bool → Result (MailServer → ℕ))
      → Bool
      → List MailServer
      → HttpState
      → Result Tested × HttpState
  unfolding test_cloudflare test_others cloudflare_servers other_servers
  test_smtp_connection core_test autodetect servers st =
      if is_empty (cloudflare_servers servers)
      then (
        core_test servers autodetect >>= λ core_size.
            ok (record { servers = map (set_size core_size) servers; notice = by_core }),
        st,
      )
      else elim (test_others core_test autodetect (other_servers servers)) [
        | ok core_size ↦ test_cloudflare autodetect core_size servers st
        | err e ↦ (err e, st)
      ]
