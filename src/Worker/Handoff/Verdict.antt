-- ===== src/Worker/Handoff/Verdict.antt =====
-- What an attempt makes of its row, when Odoo's webhook answers it.
use odoo_cloudflare_email.Prelude.{
  arith, List, ℕ, ◌+◌, ◌≤◌, ◌<◌, ◌≡◌, ◌≢◌, refl, sym, ap, ◌∙◌, true, Option, none, some, [], ◌∷◌, ℤ,
  pos, ◌-ℤ◌, abs, ◌&&◌,
}
use odoo_cloudflare_email.Text.{Text, Bytes, codes, text_eq}
use odoo_cloudflare_email.Text.Equality.{text_eq_refl}
use odoo_cloudflare_email.Json.{Json}
use odoo_cloudflare_email.Errors.{ok}
use odoo_cloudflare_email.Api.Host.{Host}
use odoo_cloudflare_email.Fetchmail.Inbound
use odoo_cloudflare_email.Fetchmail.Inbound.{
  Processed, posted, invalid, concurrency, crashed, Request, Response, Database, Cursor,
  MessageProcess, process_message, inbound, settle, respond_error, respond_delivered,
}
use odoo_cloudflare_email.Worker.Backoff.{
  Verdict, delivered, retry, rejected, dead, backoff_ms, classify_status,
}
use odoo_cloudflare_email.Worker.Config.{WorkerConfig}
use odoo_cloudflare_email.Worker.Answer.{Answer, Fetched, answered}
use odoo_cloudflare_email.Worker.Inbox.{
  EnqueueInput, InboxRow, Inbox, is_pending, find_row, update_where,
}
use odoo_cloudflare_email.Worker.Attempt.{
  Delivery, Ending, status_of, outcome_of, next_attempt, settled, settle_row, ending_of,
  delivery_of, deliver_row,
}
use odoo_cloudflare_email.Fetchmail.Signature.{signature_tolerance}
use odoo_cloudflare_email.Fetchmail.Server.{Server, find_by_key}
use odoo_cloudflare_email.Worker.Strings.{ascii_value}
use odoo_cloudflare_email.Worker.Sign.{unix_seconds}
use odoo_cloudflare_email.Worker.Email.{Put, stored, handle_email}
use odoo_cloudflare_email.Worker.Handoff.{request_of}
use odoo_cloudflare_email.Worker.Handoff.Signed.{IsHex}
use odoo_cloudflare_email.Worker.Handoff.Inbound.{inbound-stored}
use odoo_cloudflare_email.Worker.Pass.Find.{find_row-update_where}

-- The verdict that a message gets which Odoo's code ended in this way.
abbrev pub verdict_for : Processed → Verdict
verdict_for (posted thread_id) = delivered
verdict_for (invalid text) = rejected
verdict_for concurrency = retry
verdict_for crashed = retry

answered_injective : {a b : Response} → Inbound.answered a ≡ Inbound.answered b → a ≡ b
answered_injective e = cc

-- The Worker reads the webhook's answers as they are meant.
classify_status-settle :
    {R : Type 0} (id : Option Text) (p : Processed) (db : Database R) (cr cr' : Cursor R)
    (response : Response)
    → settle id (p, db) cr ≡ (Inbound.answered response, cr')
    → classify_status response.status ≡ verdict_for p
unfolding settle respond_error respond_delivered classify_status
classify_status-settle id (posted thread_id) db cr cr' response e =
    let same : respond_delivered thread_id id ≡ response = answered_injective (ap (λ h. h.0) e) in
    rw (← same) refl
classify_status-settle id (invalid text) db cr cr' response e =
    let same : respond_error 422 text ≡ response = answered_injective (ap (λ h. h.0) e) in
    rw (← same) refl
classify_status-settle id concurrency db cr cr' response e = absurd (cc)
classify_status-settle id crashed db cr cr' response e =
    let same : respond_error 500 (codes "internal error") ≡ response =
      answered_injective (ap (λ h. h.0) e) in
    rw (← same) refl

backoff_ms-some :
    (schedule : List ℕ) (attempt : ℕ)
    → schedule ≢ []
    → (wait : ℕ) × (backoff_ms schedule attempt ≡ some wait)
unfolding backoff_ms
backoff_ms-some [] attempt filled = absurd (filled refl)
backoff_ms-some (seconds ∷ schedule) attempt filled = (_, refl)

next_attempt-some :
    (config : WorkerConfig) (attempt now : ℕ) (verdict : Verdict)
    → config.backoff_seconds ≢ []
    → (at : Option ℕ) × (next_attempt config attempt verdict now ≡ some at)
unfolding next_attempt
next_attempt-some config attempt now delivered filled = (none, refl)
next_attempt-some config attempt now retry filled =
    let (wait, known) = backoff_ms-some config.backoff_seconds attempt filled in
    (some (now + wait), rw known refl)
next_attempt-some config attempt now rejected filled = (none, refl)
next_attempt-some config attempt now dead filled = (none, refl)

-- The attempt's own row, which is pending, is settled.
settle_row-own :
    (config : WorkerConfig) (e : Ending) (now : ℕ) (q : Inbox) (row : InboxRow)
    → find_row row.id q.rows ≡ some row
    → is_pending row.status ≡ true
    → config.backoff_seconds ≢ []
    → (q' : Inbox) × (row' : InboxRow) × (settle_row config row.id e now q ≡ some q')
      × (find_row row.id q'.rows ≡ some row')
      × (row'.status ≡ status_of (outcome_of config e.attempt e.verdict))
unfolding settle_row settled
settle_row-own config e now q row found waits filled =
    let (at, known) =
      next_attempt-some config e.attempt now (outcome_of config e.attempt e.verdict) filled in
    let p = λ (r : InboxRow). text_eq r.id row.id && is_pending r.status in
    let change = settled config e at now in
    let mine : p row ≡ true = ground (arith, text_eq_refl row.id, waits) in
    (
      record q { rows = update_where p change q.rows },
      change row,
      rw known refl,
      rw mine at (find_row-update_where row.id p change (λ r. refl) q.rows row found),
      refl,
    )

module _ {R : Type 0} (h : Host) (hexdigest : Bytes → Bytes → Text) (unquote : Text → Text)
    (message_process : MessageProcess R) (parse_json : Text → Option Json)
    (key_prefix version : Text) (hex : (key message : Bytes) → IsHex (hexdigest key message))
    (unquotes : (s header : Text) → ascii_value s ≡ some header → unquote header ≡ s) where
  deliver_row-sent :
      (fetch : Delivery → Fetched) (config : WorkerConfig) (row : InboxRow) (object : Bytes)
      (sent at : ℕ) (q : Inbox) (d : Delivery) (a : Answer)
      → delivery_of hexdigest version config row object sent ≡ some d
      → fetch d ≡ answered a
      → deliver_row parse_json hexdigest version fetch config row (some object) sent at q
        ≡ settle_row config row.id (ending_of parse_json (row.attempts + 1) (answered a)) at q
  unfolding deliver_row
  deliver_row-sent fetch config row object sent at q d a made fetched = rw (made, fetched) refl

  -- A pending row of a message that the Worker's handler for mail stored, sent with the secret
  -- of the server that its key finds, and answered by the webhook within 300 seconds: the
  -- attempt settles the row as Odoo's `message_process` ended on exactly the bytes that were
  -- stored. The row is delivered if that posted the message, rejected if it raised a
  -- `ValueError`, and else pending again, or dead if that was the last attempt. The schedule
  -- is not empty; HMAC is printed in lower-case hexadecimal, `unquote` undoes `asciiValue`,
  -- and the time in seconds has at most 13 digits.
  pub deliver_row-verdict :
      (id : Text) (received_at : ℕ) (message_id : Option Text) (from to : Text) (raw : Bytes)
      (put : Put) (input : EnqueueInput) (config : WorkerConfig) (row : InboxRow) (sent : ℕ)
      (d : Delivery) (key : Text) (server : Server) (now : ℤ) (date : ℕ) (cr cr' : Cursor R)
      (p : Processed) (db : Database R) (response : Response) (fetch : Delivery → Fetched)
      (text : Option Text) (at : ℕ) (q : Inbox)
      → handle_email key_prefix id received_at message_id from to raw ≡ stored put input
      → row.envelope_from ≡ input.from
      → row.envelope_to ≡ input.to
      → find_row row.id q.rows ≡ some row
      → is_pending row.status ≡ true
      → config.backoff_seconds ≢ []
      → delivery_of hexdigest version config row put.object sent ≡ some d
      → find_by_key key cr.working.servers ≡ some server
      → server.webhook_secret ≡ some config.webhook_secret
      → config.webhook_secret ≢ []
      → unix_seconds sent < 10000000000000
      → abs (now -ℤ pos (unix_seconds sent)) ≤ signature_tolerance
      → process_message message_process server date (ok put.object) cr.working ≡ (p, db)
      → inbound h hexdigest unquote message_process key (request_of d) now date cr
        ≡ (Inbound.answered response, cr')
      → fetch d ≡ answered (record { status = response.status; text = text })
      → (q' : Inbox) × (row' : InboxRow) × (deliver_row parse_json hexdigest version fetch config
            row
            (some put.object)
            sent
            at
            q
          ≡ some q')
        × (find_row row.id q'.rows ≡ some row')
        × (row'.status ≡ status_of (outcome_of config (row.attempts + 1) (verdict_for p)))
  unfolding ending_of
  deliver_row-verdict id received_at message_id from to raw put input config row sent d key server
        now date cr cr' p db response fetch text at q received sender recipient queued waits filled
        made found secret secret_filled small recent processed handled fetched =
      let a : Answer = record { status = response.status; text = text } in
      let e = ending_of parse_json (row.attempts + 1) (answered a) in
      let stored_run =
        inbound-stored h hexdigest unquote message_process key_prefix version hex unquotes id
          received_at message_id from to raw put input config row sent d key server now date cr
          received sender recipient made found secret secret_filled small recent in
      let verdict : classify_status response.status ≡ verdict_for p =
        classify_status-settle (some row.id) p db cr cr' response
          (rw processed at (sym stored_run ∙ handled)) in
      let (q', row', settles, kept, status) =
        settle_row-own config e at q row queued waits filled in
      (
        q',
        row',
        deliver_row-sent fetch config row put.object sent at q d a made fetched ∙ settles,
        kept,
        status ∙ ap (λ (v : Verdict). status_of (outcome_of config (row.attempts + 1) v)) verdict,
      )
