-- ===== src/Fetchmail/Inbound/Retries.antt =====
-- Which answers of the webhook make the Worker send a message again, by the Worker's own reading of
-- a status in worker/src/lib/backoff.ts and by the attempts that it has left.
use odoo_cloudflare_email.Prelude.{
  ℕ, ◌<◌, ◌≡◌, ◌≢◌, ap, ◌↔◌, refl, sym, ◌∙◌, leb, Bool-cases, Option-cases, inl, inr, ℤ, arith,
}
use odoo_cloudflare_email.Text.{Text, Bytes}
use odoo_cloudflare_email.Errors.{Exception, err, Result-cases}
use odoo_cloudflare_email.Api.Host.{Host}
use odoo_cloudflare_email.Fetchmail.Signature.{verify_signature}
use odoo_cloudflare_email.Fetchmail.Envelope.{prepare_message}
use odoo_cloudflare_email.Fetchmail.Envelope.Raises.{prepare_message-eq-err}
use odoo_cloudflare_email.Fetchmail.Server.{Server, find_by_key}
use odoo_cloudflare_email.Fetchmail.Inbound.{
  Processed, posted, invalid, concurrency, crashed, Request, Response, answered, Database,
  MessageProcess, raised_as, call_of, dated, process_message, settle, process_inbound, inbound_on,
  inbound, respond_error, respond_delivered,
}
use odoo_cloudflare_email.Fetchmail.Inbound.Contract.{
  begin, IsAuthentic, IsAuthentic-facts, find_by_key-IsAuthentic, IsProcessed,
}
use odoo_cloudflare_email.Worker.Backoff.{Verdict, classify_status}
use odoo_cloudflare_email.Worker.Backoff
use odoo_cloudflare_email.Worker.Config.{WorkerConfig}
use odoo_cloudflare_email.Worker.Attempt.{outcome_of}

status_of_answer : (a b : Response) → answered a ≡ answered b → a.status ≡ b.status
status_of_answer a b e = cc (e)

-- The Worker does not send again what was answered with another status.
not_again :
    (a b : Response)
    → answered a ≡ answered b
    → classify_status a.status ≢ Backoff.retry
    → classify_status b.status ≢ Backoff.retry
not_again a b e refused again = refused (ap classify_status (status_of_answer a b e) ∙ again)

outcome_of-retry_iff :
    (config : WorkerConfig) (attempt : ℕ) (verdict : Verdict)
    → (outcome_of config attempt verdict ≡ Backoff.retry)
      ↔ ((attempt < config.max_attempts) × (verdict ≡ Backoff.retry))
unfolding outcome_of
outcome_of-retry_iff config attempt Backoff.retry =
    elim (Bool-cases (leb config.max_attempts attempt)) [
      | inl spent ↦ rw spent (λ e. cc (e), λ (left, e). ground (arith, spent, left))
      | inr left ↦ rw left (λ e. (ground (arith, left), refl), λ p. refl)
    ]
outcome_of-retry_iff config attempt Backoff.delivered = (λ e. cc (e), λ (left, e). e)
outcome_of-retry_iff config attempt Backoff.rejected = (λ e. cc (e), λ (left, e). e)
outcome_of-retry_iff config attempt Backoff.dead = (λ e. cc (e), λ (left, e). e)

module _ {R : Type 0} (h : Host) (hexdigest : Bytes → Bytes → Text) (unquote : Text → Text)
    (message_process : MessageProcess R) (key : Text) (r : Request) (now : ℤ) (date : ℕ)
    (db : Database R) where
  -- What the handler does for an authentic request.
  inbound-authentic :
      (server : Server)
      → IsAuthentic h hexdigest unquote message_process key r now date db server
      → inbound h hexdigest unquote message_process key r now date (begin db)
        ≡ settle r.id
            (process_inbound h hexdigest unquote message_process server r date db)
            (begin db)
  unfolding inbound inbound_on
  inbound-authentic server a =
      rw
        (
          (IsAuthentic-facts h hexdigest unquote message_process key r now date db server a).0,
          (IsAuthentic-facts h hexdigest unquote message_process key r now date db server a).1,
        )
        refl

  inbound-processed :
      (outcome : Processed × Database R)
      (p : IsProcessed h hexdigest unquote message_process key r now date db outcome)
      → inbound h hexdigest unquote message_process key r now date (begin db)
        ≡ settle r.id (dated p.server.id date outcome) (begin db)
  unfolding process_inbound process_message
  inbound-processed outcome p =
      inbound-authentic p.server p.authentic ∙ rw (p.prepared, p.ended) refl

  settle-retry_iff :
      (id : ℕ) (outcome : Processed × Database R) (response : Response)
      → (settle r.id (dated id date outcome) (begin db)).0 ≡ answered response
      → (classify_status response.status ≡ Backoff.retry) ↔ (outcome.0 ≡ crashed)
  unfolding settle dated respond_error respond_delivered classify_status
  settle-retry_iff id (posted thread_id, after) response e =
      rw (← status_of_answer _ response e) (λ x. cc (x), λ x. cc (x))
  settle-retry_iff id (invalid text, after) response e =
      rw (← status_of_answer _ response e) (λ x. cc (x), λ x. cc (x))
  settle-retry_iff id (concurrency, after) response e = absurd (cc (e))
  settle-retry_iff id (crashed, after) response e =
      rw (← status_of_answer _ response e) (λ x. refl, λ x. refl)

  unprepared-ne-retry :
      (server : Server) (e : Exception) (response : Response)
      → prepare_message unquote r.body r.envelope_from r.envelope_to ≡ err e
      → (settle r.id (process_message message_process server date (err e) db) (begin db)).0
        ≡ answered response
      → classify_status response.status ≢ Backoff.retry
  unfolding process_message settle raised_as respond_error classify_status
  unprepared-ne-retry server e response raised a =
      let (text, same) =
        prepare_message-eq-err unquote r.body r.envelope_from r.envelope_to e raised in
      not_again (respond_error 422 text) response (rw same at a) (λ x. cc (x))

  -- A request that asks for another attempt was processed.
  retry-IsProcessed :
      (response : Response)
      → (inbound h hexdigest unquote message_process key r now date (begin db)).0
        ≡ answered response
      → classify_status response.status ≡ Backoff.retry
      → (outcome : Processed × Database R) × IsProcessed h hexdigest unquote message_process key r
          now date db outcome
  unfolding inbound inbound_on respond_error process_inbound classify_status
  retry-IsProcessed response a again = elim (Option-cases (find_by_key key db.servers)) [
    | inl e ↦ absurd (not_again _ response (rw e at a) (λ x. cc (x)) again)
    | inr (server, e) ↦
        elim (Bool-cases
          (verify_signature h hexdigest server.webhook_secret r.timestamp r.signature r.body now)) [
            | inr v ↦ absurd (not_again _ response (rw (e, v) at a) (λ x. cc (x)) again)
            | inl v ↦
                elim (Result-cases (prepare_message unquote r.body r.envelope_from r.envelope_to)) [
                  | inl (message, p) ↦ (
                    message_process (call_of server message) db,
                    record {
                      server = server;
                      authentic =
                          find_by_key-IsAuthentic h hexdigest unquote message_process key r now date
                            db server e v;
                      message = message;
                      prepared = p;
                      ended = refl;
                    },
                  )
                  | inr (x, p) ↦
                      absurd (unprepared-ne-retry server x response p (rw (e, v, p) at a) again)
                ]
          ]
  ]

  -- Where the webhook answers, the Worker keeps the message for another attempt exactly when this was
  -- not the last one that its configuration allows, the request is authentic, its message could be
  -- prepared, and `message_process` ended in an exception that is neither a `ValueError` nor a
  -- concurrency error.
  pub inbound-outcome_of_iff :
      (config : WorkerConfig) (attempt : ℕ) (response : Response)
      → (inbound h hexdigest unquote message_process key r now date (begin db)).0
        ≡ answered response
      → (outcome_of config attempt (classify_status response.status) ≡ Backoff.retry) ↔ (
          (attempt < config.max_attempts)
          × ((outcome : Processed × Database R) × IsProcessed h hexdigest unquote message_process
                key r now date db outcome
              × (outcome.0 ≡ crashed)))
  inbound-outcome_of_iff config attempt response a =
      let counted = outcome_of-retry_iff config attempt (classify_status response.status) in
      (
        λ e.
            let (left, again) = counted.0 e in
            let (outcome, p) = retry-IsProcessed response a again in
            let s = ap (λ s. s.0) (sym (inbound-processed outcome p)) ∙ a in
            (left, (outcome, p, (settle-retry_iff p.server.id outcome response s).0 again)),
        λ (left, (outcome, p, failed)).
            let s = ap (λ s. s.0) (sym (inbound-processed outcome p)) ∙ a in
            counted.1 (left, (settle-retry_iff p.server.id outcome response s).1 failed),
      )
