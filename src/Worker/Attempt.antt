-- ===== src/Worker/Attempt.antt =====
-- worker/src/inbox-do.ts: one attempt to deliver a row. The message is what R2 holds under the row's
-- key, Odoo's answer is a function of the request, and the version of the Worker is a parameter.
use odoo_cloudflare_email.Prelude.{
  ℕ, ◌+◌, Bool, true, false, ◌&&◌, Option, none, some, List, [], ◌∷◌, ◌++◌, leb, if◌then◌else◌,
}
use odoo_cloudflare_email.Text.{Text, Bytes, codes, text_eq}
use odoo_cloudflare_email.Text.Number.{decimal}
use odoo_cloudflare_email.Json.{Json, Number}
use odoo_cloudflare_email.Worker.Backoff.{
  Verdict, delivered, retry, rejected, dead, backoff_ms, classify_status,
}
use odoo_cloudflare_email.Worker.Strings.{slice, ascii_value}
use odoo_cloudflare_email.Worker.Sign.{unix_seconds, sign_body}
use odoo_cloudflare_email.Worker.Config.{AccessCredentials, WorkerConfig}
use odoo_cloudflare_email.Worker.Answer.{
  Fetched, answered, unreachable, max_error_chars, thread_id_of, error_of,
}
use odoo_cloudflare_email.Worker.Inbox
use odoo_cloudflare_email.Worker.Inbox.{InboxStatus, InboxRow, Inbox, is_pending, update_where}

infixl 5 ◌>>=◌
abbrev pub ◌>>=◌ : {A B : Type 0} → Option A → (A → Option B) → Option B
◌>>=◌ none rest = none
◌>>=◌ (some value) rest = rest value

-- The request of one attempt, which is a POST that follows no redirect.
pub record Delivery : Type 0 where
  pub url : Text
  pub headers : List (Text × Text)
  pub body : Bytes

-- The credentials of Cloudflare Access, where they are configured.
abbrev access_headers : Option AccessCredentials → List (Text × Text)
access_headers none = []
access_headers (some access) =
    (codes "CF-Access-Client-Id", access.client_id)
    ∷ (codes "CF-Access-Client-Secret", access.client_secret)
    ∷ []

module _ (hexdigest : Bytes → Bytes → Text) (version : Text) where
  -- The headers, with the two addresses as header values.
  unfoldable pub delivery_headers :
      WorkerConfig → InboxRow → Text → Text → Bytes → ℕ → List (Text × Text)
  unfolding unix_seconds sign_body
  delivery_headers config row from to body now =
      let timestamp = unix_seconds now in
      (codes "Content-Type", codes "message/rfc822")
      ∷ (codes "User-Agent", codes "mail-cloudflare-worker/" ++ version)
      ∷ (codes "X-Mail-Cloudflare-Id", row.id)
      ∷ (codes "X-Mail-Cloudflare-Timestamp", decimal timestamp)
      ∷ (
        codes "X-Mail-Cloudflare-Signature",
        sign_body hexdigest config.webhook_secret timestamp body,
      )
      ∷ (codes "X-Mail-Cloudflare-Envelope-From", from)
      ∷ (codes "X-Mail-Cloudflare-Envelope-To", to)
      ∷ (codes "X-Mail-Cloudflare-Attempt", decimal (row.attempts + 1))
      ∷ access_headers config.access

  -- The request at a time; none where an address makes `asciiValue` raise.
  unfoldable pub delivery_of : WorkerConfig → InboxRow → Bytes → ℕ → Option Delivery
  unfolding delivery_headers ascii_value
  delivery_of config row body now = do
    from ← ascii_value row.envelope_from
    to ← ascii_value row.envelope_to
    some (record {
      url = config.inbound_url;
      headers = delivery_headers config row from to body now;
      body = body;
    })

-- The verdict once the attempts are counted.
unfoldable pub outcome_of : WorkerConfig → ℕ → Verdict → Verdict
outcome_of config attempt retry = if leb config.max_attempts attempt then dead else retry
outcome_of config attempt verdict = verdict

abbrev pub status_of : Verdict → InboxStatus
status_of delivered = Inbox.delivered
status_of retry = Inbox.pending
status_of rejected = Inbox.rejected
status_of dead = Inbox.dead

-- A time where the message was delivered.
abbrev at_delivery : Verdict → ℕ → Option ℕ
at_delivery delivered at = some at
at_delivery _ at = none

-- When the next attempt is; none is the `RangeError` of an empty schedule.
unfoldable pub next_attempt : WorkerConfig → ℕ → Verdict → ℕ → Option (Option ℕ)
unfolding backoff_ms
next_attempt config attempt retry now = do
  wait ← backoff_ms config.backoff_seconds attempt
  some (some (now + wait))
next_attempt config attempt verdict now = some none

abbrev cut_error : Option Text → Option Text
cut_error none = none
cut_error (some error) = some (slice max_error_chars error)

-- What `settle` is called with, the row and the clock apart.
pub record Ending : Type 0 where
  pub attempt : ℕ
  pub verdict : Verdict
  pub status : Option ℕ
  pub error : Option Text
  pub thread_id : Option Number

-- The values of the `UPDATE`.
unfoldable pub settled : WorkerConfig → Ending → Option ℕ → ℕ → InboxRow → InboxRow
unfolding outcome_of slice
settled config e next_attempt_at now row =
    let outcome = outcome_of config e.attempt e.verdict in
    record row {
      status = status_of outcome;
      attempts = e.attempt;
      next_attempt_at = next_attempt_at;
      last_attempt_at = some now;
      last_status = e.status;
      last_error = cut_error e.error;
      thread_id = e.thread_id;
      delivered_at = at_delivery outcome now;
      purge_at = at_delivery outcome (now + config.retention_ms);
    }

-- `settle` of the row with an id; none where it raises, and then the table is as it was.
unfoldable pub settle_row : WorkerConfig → Text → Ending → ℕ → Inbox → Option Inbox
unfolding settled next_attempt outcome_of update_where
settle_row config id e now q = do
  next_attempt_at ← next_attempt config e.attempt (outcome_of config e.attempt e.verdict) now
  some (record q {
    rows =
        update_where (λ row. text_eq row.id id && is_pending row.status)
          (settled config e next_attempt_at now) q.rows;
  })

-- The `settle` of a message that is not in R2.
unfoldable pub missing_ending : ℕ → Ending
missing_ending attempt = record {
  attempt = attempt;
  verdict = dead;
  status = none;
  error = some (codes "stored message missing from R2");
  thread_id = none;
}

abbrev is_delivered : Verdict → Bool
is_delivered delivered = true
is_delivered _ = false

module _ (parse_json : Text → Option Json) where
  -- How an attempt ended that was sent.
  unfoldable pub ending_of : ℕ → Fetched → Ending
  unfolding classify_status thread_id_of error_of
  ending_of attempt (unreachable failure) = record {
    attempt = attempt;
    verdict = retry;
    status = none;
    error = some failure;
    thread_id = none;
  }
  ending_of attempt (answered a) =
      let verdict = classify_status a.status in
      let success = is_delivered verdict in
      record {
        attempt = attempt;
        verdict = verdict;
        status = some a.status;
        error = if success then none else some (error_of parse_json a);
        thread_id = if success then thread_id_of parse_json a else none;
      }

  -- `deliver` of a row as it was read: it sends at the one time and settles at the other. None where
  -- it raises.
  unfoldable pub deliver_row :
      (Bytes → Bytes → Text)
      → Text
      → (Delivery → Fetched)
      → WorkerConfig
      → InboxRow
      → Option Bytes
      → ℕ
      → ℕ
      → Inbox
      → Option Inbox
  unfolding delivery_of ending_of missing_ending settle_row
  deliver_row hexdigest version fetch config row none sent now q =
      settle_row config row.id (missing_ending (row.attempts + 1)) now q
  deliver_row hexdigest version fetch config row (some body) sent now q = do
    delivery ← delivery_of hexdigest version config row body sent
    settle_row config row.id (ending_of (row.attempts + 1) (fetch delivery)) now q
