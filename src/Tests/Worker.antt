-- ===== src/Tests/Worker.antt =====
-- The Worker's queue through one pass that reaches nobody, and one message on its way to Odoo.
use odoo_cloudflare_email.Prelude.{
  ◌+◌, ◌%◌, ◌≡◌, ◌≤◌, refl, ap, ◌∙◌, true, none, some, Option, List, [], ◌∷◌, ◌++◌, map, pos, All,
  arith, Bool-cases, inl, inr,
}
use odoo_cloudflare_email.Text.{Text, Bytes, codes, text_eq, utf8, contains, encode_char}
use odoo_cloudflare_email.Text.Equality.{count}
use odoo_cloudflare_email.Errors.{ok}
use odoo_cloudflare_email.Json.{Json}
use odoo_cloudflare_email.Samples.{ascii_host}
use odoo_cloudflare_email.Worker.Strings.{ascii_value}
use odoo_cloudflare_email.Worker.Strings.Unquote.{IsPrintable, unquote, unquote-ascii_value}
use odoo_cloudflare_email.Worker.Config.{WorkerConfig, delivery_delay_ms}
use odoo_cloudflare_email.Worker.Answer.{answered, unreachable}
use odoo_cloudflare_email.Worker.Inbox.{Inbox, EnqueueInput, InboxRow, enqueue, find_row, pending}
use odoo_cloudflare_email.Worker.Attempt.{
  Delivery, status_of, outcome_of, delivery_headers, deliver_row, delivery_of, settle_row,
  ending_of,
}
use odoo_cloudflare_email.Worker.Pass.{
  Queue, idle, Reach, here, next, fired, attempted, attempted_all, searched, ended, begin_pass,
  begin_purge, end_pass,
}
use odoo_cloudflare_email.Fetchmail.Envelope.{has_control}
use odoo_cloudflare_email.Fetchmail.Server.{find_by_key, is_match, write_date}
use odoo_cloudflare_email.Fetchmail.Inbound
use odoo_cloudflare_email.Fetchmail.Inbound.{
  posted, Response, Database, inbound, process_message, settle, respond_delivered,
}
use odoo_cloudflare_email.Fetchmail.Inbound.Contract.{begin}
use odoo_cloudflare_email.Worker.Sign.{unix_seconds}
use odoo_cloudflare_email.Worker.Handoff.{request_of}
use odoo_cloudflare_email.Worker.Handoff.Inbound.{inbound-stored}
use odoo_cloudflare_email.Worker.Handoff.Verdict.{verdict_for, deliver_row-verdict}
use odoo_cloudflare_email.Tests.Inbound.{worker_server, mail, mailbox, database}
use odoo_cloudflare_email.Worker.Rfc822.{assert_header_safe}
use odoo_cloudflare_email.Worker.Email.{
  Put, stored, envelope_error, metadata_address, store_email, handle_email,
}
use odoo_cloudflare_email.Worker.Handoff.Signed.{IsHexDigit, IsHex}
use odoo_cloudflare_email.Worker.Pass.Consistent.{IsConsistent, Reach-IsConsistent}

-- An address with a character outside ASCII.
encoded : ascii_value (codes "jж@x.org") ≡ some (codes "j%D0%B6@x.org")
unfolding ascii_value encode_char
encoded = refl

unquote-ascii_value_example :
    (unquote (codes "j%D0%B6@x.org") ≡ codes "jж@x.org") × All IsPrintable (codes "j%D0%B6@x.org")
unquote-ascii_value_example = unquote-ascii_value (codes "jж@x.org") (codes "j%D0%B6@x.org") encoded

abbrev no_json : Text → Option Json
no_json t = none

-- Decimal digits, in place of a hash.
abbrev digest : Bytes → Bytes → Text
digest key bytes = b'0' ∷ map (λ b. b'0' + b % 10) (key ++ bytes)

abbrev config : WorkerConfig
config = record {
  inbound_url = codes "https://x.org/mail/key";
  webhook_secret = codes "secret";
  access = none;
  retention_ms = 0;
  max_attempts = 2;
  backoff_seconds = 60 ∷ [];
  delivery_delay_ms = 0;
}

abbrev input : EnqueueInput
input = record {
  id = codes "w1";
  r2_key = codes "inbox/w1.eml";
  from = [];
  to = codes "a@x.org";
  message_id = none;
  size = 57;
  received_at = 1000;
}

abbrev row : InboxRow
row = record {
  id = codes "w1";
  r2_key = codes "inbox/w1.eml";
  envelope_from = [];
  envelope_to = codes "a@x.org";
  message_id = none;
  size = 57;
  received_at = 1000;
  status = pending;
  attempts = 0;
  next_attempt_at = some 1000;
  last_attempt_at = none;
  last_status = none;
  last_error = none;
  thread_id = none;
  delivered_at = none;
  purge_at = none;
}

abbrev queued : Queue
queued = record { inbox = record { rows = row ∷ []; alarm = some 1000 }; phase = idle none }

-- The row after an attempt that got no answer.
abbrev tried : InboxRow
tried = record row {
  attempts = 1;
  next_attempt_at = some 63000;
  last_attempt_at = some 3000;
  last_error = some (codes "timeout");
}

abbrev waiting : Queue
waiting = record { inbox = record { rows = tried ∷ []; alarm = some 63000 }; phase = idle none }

abbrev Steps : Queue → Queue → Type 0
Steps = Reach no_json digest (codes "1") 2

-- The row as it is queued, at the time 1000.
is_queued :
    enqueue (delivery_delay_ms (some config)) input 1000 (record { rows = []; alarm = none })
    ≡ (true, queued.inbox)
unfolding enqueue delivery_delay_ms contains
is_queued = refl

once_w1 : (id : Text) → count id (codes "w1" ∷ []) ≤ 1
unfolding count
once_w1 id = elim (Bool-cases (text_eq (codes "w1") id)) [
  | inl e ↦ rw e (omega arith)
  | inr e ↦ rw e (omega arith)
]

queued-IsConsistent : IsConsistent 2 queued
queued-IsConsistent = record {
  rows = record {
    once = once_w1;
    sound = (
      record {
        timed = refl;
        counted = omega arith;
        left = λ e. omega arith;
        answered = refl;
        short = omega arith;
      },
      tt,
    );
  };
  on_time = (omega arith, tt);
}

-- The alarm comes at 2000, and the attempt ends at 3000 without an answer.
pass : Steps queued waiting
unfolding begin_pass deliver_row delivery_of ascii_value settle_row begin_purge end_pass ending_of
    text_eq
pass =
    next
      (next
        (next
          (next (next here (fired none (some config) 1000 2000 refl refl (omega arith) refl)) (
            attempted (λ d. unreachable (codes "timeout")) (some (codes "mail")) config row [] 2000
              3000 (omega arith) refl refl))
          (attempted_all config refl refl))
        (searched true 3000 refl refl))
      (ended true 3000 refl refl)

Reach-IsConsistent_example : IsConsistent 2 waiting
Reach-IsConsistent_example =
    Reach-IsConsistent no_json digest (codes "1") 2 (omega arith) queued-IsConsistent pass

found_w1 : find_row (codes "w1") queued.inbox.rows ≡ some row
unfolding find_row text_eq
found_w1 = refl

-- The message `mail` from the null sender, and its request at the time 1000 s.
abbrev put : Put
put = record {
  key = codes "inbox/w1.eml";
  object = codes "Delivered-To: a@x.org\r\nReturn-Path: <>\r\n" ++ mail;
  from = [];
  to = codes "a@x.org";
  message_id = none;
}

digest-IsHex : (key message : Bytes) → IsHex (digest key message)
digest-IsHex key message = record {
  some_digit = λ e. cc;
  digits = (inl (omega arith, omega arith), digits-hex (key ++ message));
}
  where
    digits-hex : (bytes : Bytes) → All IsHexDigit (map (λ b. b'0' + b % 10) bytes)
    digits-hex [] = tt
    digits-hex (b ∷ bytes) = (inl (omega arith, omega arith), digits-hex bytes)

put_and_queued :
    handle_email (codes "inbox/") (codes "w1") 1000 none [] (codes "a@x.org") mail
    ≡ stored put input
unfolding handle_email envelope_error assert_header_safe has_control utf8 metadata_address
    store_email
put_and_queued = refl

abbrev delivery : Delivery
delivery = record {
  url = codes "https://x.org/mail/key";
  headers = delivery_headers digest (codes "1") config row [] (codes "a@x.org") put.object 1000000;
  body = put.object;
}

sent_w1 : delivery_of digest (codes "1") config row put.object 1000000 ≡ some delivery
unfolding delivery_of ascii_value
sent_w1 = refl

found_server : find_by_key (codes "key") database.servers ≡ some worker_server
unfolding find_by_key is_match text_eq
found_server = refl

issued_at : unix_seconds 1000000 ≡ 1000
unfolding unix_seconds
issued_at = refl

inbound-stored_example :
    inbound ascii_host digest unquote mailbox
      (codes "key")
      (request_of delivery)
      (pos 1200)
      5
      (begin database)
    ≡ settle
        (some (codes "w1"))
        (process_message mailbox worker_server 5 (ok put.object) database)
        (begin database)
inbound-stored_example =
    inbound-stored ascii_host digest unquote mailbox (codes "inbox/") (codes "1") digest-IsHex
      (λ s header e. (unquote-ascii_value s header e).0) (codes "w1") 1000 none [] (codes "a@x.org")
      mail put input config row 1000000 delivery (codes "key") worker_server (pos 1200) 5
      (begin database) put_and_queued refl refl sent_w1 found_server refl (λ e. cc)
      (rw issued_at (omega arith)) (rw issued_at (omega arith))

-- What the mailbox makes of the message.
abbrev filed : Database (List Bytes)
filed = record { servers = record worker_server { date = some 5 } ∷ []; records = put.object ∷ [] }

posted_w1 :
    process_message mailbox worker_server 5 (ok put.object) database ≡ (posted (some 0), filed)
unfolding process_message write_date
posted_w1 = refl

abbrev answer_w1 : Response
answer_w1 = respond_delivered (some 0) (some (codes "w1"))

answered_w1 :
    inbound ascii_host digest unquote mailbox
      (codes "key")
      (request_of delivery)
      (pos 1200)
      5
      (begin database)
    ≡ (Inbound.answered answer_w1, record { committed = database; working = filed })
unfolding settle
answered_w1 =
    inbound-stored ascii_host digest unquote mailbox (codes "inbox/") (codes "1") digest-IsHex
      (λ s header e. (unquote-ascii_value s header e).0) (codes "w1") 1000 none [] (codes "a@x.org")
      mail put input config row 1000000 delivery (codes "key") worker_server (pos 1200) 5
      (begin database) put_and_queued refl refl sent_w1 found_server refl (λ e. cc)
      (rw issued_at (omega arith)) (rw issued_at (omega arith))
    ∙ ap (λ r. settle (some (codes "w1")) r (begin database)) posted_w1

status_w1 : answer_w1.status ≡ 200
unfolding respond_delivered
status_w1 = refl

deliver_row-verdict_example :
    (q' : Inbox) × (row' : InboxRow) × (deliver_row no_json digest
        (codes "1")
        (λ d. answered (record { status = answer_w1.status; text = none }))
        config
        row
        (some put.object)
        1000000
        1200000
        queued.inbox
      ≡ some q')
    × (find_row (codes "w1") q'.rows ≡ some row')
    × (row'.status ≡ status_of (outcome_of config 1 (verdict_for (posted (some 0)))))
deliver_row-verdict_example =
    deliver_row-verdict ascii_host digest unquote mailbox no_json (codes "inbox/") (codes "1")
      digest-IsHex (λ s header e. (unquote-ascii_value s header e).0) (codes "w1") 1000 none []
      (codes "a@x.org") mail put input config row 1000000 delivery (codes "key") worker_server
      (pos 1200) 5 (begin database) (record { committed = database; working = filed })
      (posted (some 0)) filed answer_w1
      (λ d. answered (record { status = answer_w1.status; text = none })) none 1200000 queued.inbox
      put_and_queued refl refl found_w1 refl (λ e. cc) sent_w1 found_server refl (λ e. cc)
      (rw issued_at (omega arith)) (rw issued_at (omega arith)) posted_w1 answered_w1 refl
