-- ===== src/Tests/Outgoing.antt =====
-- Outgoing servers: a table of two, the constraint, a connection with a batch over it, and a test of
-- the connection.
use odoo_cloudflare_email.Prelude.{
  ℕ, ◌≡◌, ◌↔◌, refl, Bool, true, false, none, some, Option, List, [], ◌∷◌, All,
}
use odoo_cloudflare_email.Text.{Text, codes, text_eq}
use odoo_cloudflare_email.Json.{str, obj, bool, end, field, get}
use odoo_cloudflare_email.Errors.{Result, ok, err, user_error, no_api_token}
use odoo_cloudflare_email.Samples.{ascii_host}
use odoo_cloudflare_email.Api.Response.{Response, answered, parse_json, result_of}
use odoo_cloudflare_email.Api.Token.{HttpState, verify_token}
use odoo_cloudflare_email.Api.Session.{Session}
use odoo_cloudflare_email.Api.Session.Send.{send_all}
use odoo_cloudflare_email.Api.Session.Addressed.{IsAddressed, send_all-IsAddressed}
use odoo_cloudflare_email.Outgoing.{
  MailServer, cloudflare_authentication, is_cloudflare, check_credentials,
}
use odoo_cloudflare_email.Outgoing.Credentials.{IsChecked, check_credentials-IsChecked}
use odoo_cloudflare_email.Outgoing.Connect.{ConnectArgs, session, cloudflare_session, connect}
use odoo_cloudflare_email.Outgoing.Connect.Chosen.{IsSessionOf, connect-IsSessionOf_iff}
use odoo_cloudflare_email.Outgoing.Connect.Batch.{fresh, IsRequestOf, connect-send_all}
use odoo_cloudflare_email.Outgoing.Probe.{sizes, test_smtp_connection}
use odoo_cloudflare_email.Outgoing.Probe.Verified.{IsProbed, test_smtp_connection-IsProbed}
use odoo_cloudflare_email.Tests.Network.{start, note, flaky}

send_all-IsAddressed_example :
    IsAddressed start (send_all ascii_host flaky ((note, codes "you@x" ∷ []) ∷ []) start).1
send_all-IsAddressed_example =
    send_all-IsAddressed ascii_host flaky ((note, codes "you@x" ∷ []) ∷ []) start

abbrev smtp_server : MailServer
smtp_server = record {
  id = 1;
  name = codes "smtp";
  display_name = codes "smtp";
  active = true;
  smtp_authentication = codes "login";
  cloudflare_account_id = none;
  cloudflare_api_token = none;
  from_filter = none;
  smtp_host = some (codes "mx.x.org");
  smtp_port = some 25;
  smtp_encryption = codes "none";
  max_email_size = 1000;
  smtp_authentication_info = [];
}

abbrev cloudflare_server : MailServer
cloudflare_server = record smtp_server {
  id = 2;
  name = codes "cf";
  display_name = codes "cf";
  smtp_authentication = cloudflare_authentication;
  cloudflare_account_id = some (codes "acc");
  cloudflare_api_token = some (codes "tok");
  from_filter = some (codes "x.org");
}

abbrev tokenless : MailServer
tokenless = record cloudflare_server { cloudflare_api_token = none }

refused :
    check_credentials (smtp_server ∷ tokenless ∷ []) ≡ err (user_error (no_api_token (codes "cf")))
unfolding check_credentials text_eq is_cloudflare
refused = refl

check_credentials-IsChecked_example :
    IsChecked (smtp_server ∷ tokenless ∷ []) (check_credentials (smtp_server ∷ tokenless ∷ []))
check_credentials-IsChecked_example = check_credentials-IsChecked (smtp_server ∷ tokenless ∷ [])

abbrev find_nothing : Option Text → Option MailServer × Option Text
find_nothing smtp_from = (none, smtp_from)

abbrev core_connect : ConnectArgs (Unit {0}) → Result Bool
core_connect args = ok true

-- The second server, by its id.
abbrev args : ConnectArgs (Unit {0})
args = record {
  host = none;
  smtp_from = some (codes "me@x.org");
  mail_server_id = some 2;
  allow_archived = false;
  for_core = tt;
}

abbrev chosen : Session
chosen = cloudflare_session cloudflare_server (some (codes "me@x.org"))

connected :
    connect (smtp_server ∷ cloudflare_server ∷ []) find_nothing core_connect false args
    ≡ ok (session chosen)
unfolding connect text_eq is_cloudflare
connected = refl

connect-IsSessionOf_iff_example :
    (connect (smtp_server ∷ cloudflare_server ∷ []) find_nothing core_connect false args
      ≡ ok (session chosen))
    ↔ ((◌≡◌ {A = Bool} false false)
        × IsSessionOf (smtp_server ∷ cloudflare_server ∷ []) find_nothing core_connect args chosen)
connect-IsSessionOf_iff_example =
    connect-IsSessionOf_iff (smtp_server ∷ cloudflare_server ∷ []) find_nothing core_connect args
      false chosen

connect-send_all_example :
    (p : IsSessionOf (smtp_server ∷ cloudflare_server ∷ []) find_nothing core_connect args chosen)
    × All
        (IsRequestOf p.server)
        (send_all ascii_host flaky ((note, codes "you@x" ∷ []) ∷ []) (fresh chosen)).1.requests
connect-send_all_example =
    connect-send_all (smtp_server ∷ cloudflare_server ∷ []) find_nothing core_connect args
      ascii_host flaky false chosen ((note, codes "you@x" ∷ []) ∷ []) connected

abbrev active_token : Response
active_token = record {
  status_code = 200;
  json = some (
      obj (
        field (codes "success") (bool true)
          (field (codes "result") (obj (field (codes "status") (str (codes "active")) end)) end)));
  retry_after = none;
}

abbrev core_test : List MailServer → Bool → Result (MailServer → ℕ)
core_test servers autodetect = ok (λ s. 2000)

abbrev idle : HttpState
idle = record { gets = []; open_sessions = 0 }

tested_sizes :
    (test_smtp_connection
      (λ gets. answered active_token)
      core_test
      true
      (smtp_server ∷ cloudflare_server ∷ [])
      idle).0
    ≡ ok (record {
      servers =
          record smtp_server { max_email_size = 2000 }
          ∷ record cloudflare_server { max_email_size = 500 }
          ∷ [];
      notice = sizes ((codes "smtp", 2000) ∷ (codes "cf", 500) ∷ []);
    })
unfolding test_smtp_connection verify_token parse_json text_eq get is_cloudflare result_of
tested_sizes = refl

test_smtp_connection-IsProbed_example :
    IsProbed
      (λ gets. answered active_token)
      core_test
      true
      (smtp_server ∷ cloudflare_server ∷ [])
      idle
      (test_smtp_connection
        (λ gets. answered active_token)
        core_test
        true
        (smtp_server ∷ cloudflare_server ∷ [])
        idle).0
      (test_smtp_connection
        (λ gets. answered active_token)
        core_test
        true
        (smtp_server ∷ cloudflare_server ∷ [])
        idle).1
    × ((test_smtp_connection
          (λ gets. answered active_token)
          core_test
          true
          (smtp_server ∷ cloudflare_server ∷ [])
          idle).1.open_sessions
        ≡ 0)
test_smtp_connection-IsProbed_example =
    test_smtp_connection-IsProbed (λ gets. answered active_token) core_test true
      (smtp_server ∷ cloudflare_server ∷ []) idle
