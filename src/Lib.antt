-- ===== src/Lib.antt =====
-- The Odoo addon mail_cloudflare, which sends mail through Cloudflare's Email Sending API and
-- receives mail from a Cloudflare Email Worker.
--
-- Outbound: core builds an email and calls `send_message` of the session that the outgoing server
-- gave it. `send_message` turns the email into a JSON payload (recipients, headers, bodies and
-- attachments), posts it with retries, and reads the answer for bounces. Inbound: the Worker posts a
-- raw message to the webhook; the handler finds the server by the key in the URL, verifies the
-- signature, adds the envelope as headers and calls Odoo's `message_process`. The two directions
-- share nothing but the addon. The Worker is a program of the same repository: it stores a message
-- with its envelope, queues a row for it, and sends it from an alarm until Odoo takes or rejects it.
--
-- Which file is about which code:
--   Api, for mail_cloudflare/cloudflare_api.py
--     Host           what comes from Odoo and Python's tables: a record of functions and laws
--     Mime           emails as the code sees them: headers, parts, `get_body`
--     Recipients     `_address`, `_split_recipients`
--     MessageIds     `_MSGID_RE`
--     Headers        the allow-list, `_header_size`, `_passthrough_headers`
--     Content        `_iter_leaves`, `_attachment`, `_extract_content`
--     Payload        `build_payload`, and the JSON text
--     Response       `_parse_json`, `_describe`, `_first_code`, `_retry_after`
--     Token          `verify_token`
--     Session        `CloudflareSendingSession`: `_post`; Session/Send `send_message`;
--                    Session/Bounces `_check_recipients`; Session/Close `quit` and `close`
--   Fetchmail, for mail_cloudflare/models/fetchmail_server.py
--     Signature      `_cloudflare_verify_signature`
--     Envelope       `_existing_header_names`, `_cloudflare_check_envelope`,
--                    `_cloudflare_prepare_message`
--     Server         the records, `_cloudflare_find_by_key`
--     Credentials    `create`, `write`, `action_regenerate_cloudflare_webhook_secret`
--     Confirm        `connect`, `_cloudflare_check_base_url`, `button_confirm_login`, `fetch_mail`
--     Forms          the webhook URL, the form of a server, `_update_cron`
--     Configuration  `_cloudflare_configuration`
--     Table          the operations on a server as steps of the table of servers
--     Inbound        `_cloudflare_process_inbound`, and mail_cloudflare/controllers/main.py
--   Outgoing, for mail_cloudflare/models/ir_mail_server.py
--     Outgoing       the records, the forms, `_check_cloudflare_credentials`, `_get_max_email_size`
--     Connect        `_cloudflare_session`, `connect`
--     Probe          `test_smtp_connection`
--   Worker, for the Cloudflare Email Worker, worker/src
--     Rfc822, Sign   lib/rfc822.ts, lib/sign.ts
--     Backoff        lib/backoff.ts
--     Config         what `loadConfig` returns
--     Email          `handleEmail` in handlers/email.ts
--     Inbox          the table and the alarm of `InboxQueue` in inbox-do.ts, `enqueue`, `get`, `retry`,
--                    `retryAll`, `remove`, `armNoLaterThan`
--     Attempt        `deliver` and `settle`; Answer and Strings hold what they use
--     Pass           `alarm`, `processDue`, `purgeExpired`, `rearm`, and the steps of the queue
--     Handoff        the Worker's request at the webhook
--   Errors           `CloudflareEmailError` and Python's exceptions
--   Json, Text       what the code uses of `json`, `base64` and `str`, and readers that undo it;
--                    Prelude holds helpers
--   Samples, Tests   concrete inputs
--
-- State. A session is a record; `_post` and `send_message` take it, with the requests and sleeps so
-- far, and return what they make of it. The network is a function of all requests so far, so an
-- answer may depend on everything that was sent. A request to the webhook takes a transaction (the
-- committed database and the working one) and returns it. The table of servers has its operations as
-- steps, and what is done to it is a sequence of them. An exception is a value. The Worker's queue is
-- its table, its alarm and the place where `alarm` is; what runs between two waits for R2 or Odoo is
-- one step, so that the operator's calls and new mail come at any of these places.
--
-- Parameters: the network; Odoo's address parser, `str.lower` and `mimetypes.guess_extension` (Host,
-- with the laws that lowering is idempotent and is ASCII's on ASCII text), and whether two numbers of
-- a JSON text add up to zero; HMAC-SHA256; `unquote`;
-- `message_process`, which may change any record and may raise; the generator of tokens; `urlsplit`;
-- what core does with servers of other types; the toggle of the cron; the `close` of the connection
-- pool; what the framework leaves in the database behind a request, and whether another run follows a
-- concurrency error; the clock. For the Worker:
-- what R2 holds, what `fetch` and `JSON.parse` give, and the result of `loadConfig`.
--
-- Fuel: `_post` is a recursion on the attempts left, three at first, as in the source. `decimal`
-- has as many rounds as the number and one more, and the reader `loads` three for each character of
-- its text, which is more than a value written in it takes. All other functions are structural
-- recursions.
--
-- A `str` is a list of code points and is taken to hold no lone surrogate. The headers of an HTTP
-- request are Latin-1, where `int` reads ASCII digits only.
--
-- Not modelled: the logging, `ensure_db` and the options of the route; field declarations, help
-- texts and the notifications of the client; of the Worker, the validation of its configuration, which
-- is zod's, the operator's HTTP API, `list`, the minting of ids and failures of the queue's own storage;
-- manifest, views, tests and build files.
pub mod Prelude
pub mod Text
pub mod Worker
pub mod Json
pub mod Errors
pub mod Api
pub mod Fetchmail
pub mod Outgoing
pub mod Samples
pub mod Tests
