-- ===== src/Fetchmail/Inbound/Once.antt =====
-- One message over all the runs of the webhook's handler for it: each run is a transaction of its own.
-- The next one is made where the Worker reads the answer as one to try again (worker/src/lib/backoff.ts),
-- or, behind a concurrency error, where the framework or the Worker makes one, which is open. What the
-- framework leaves in the database behind a run is a parameter: it commits behind an answer, and rolls
-- back behind a concurrency error.
use odoo_cloudflare_email.Prelude.{
  ℕ, ◌≡◌, refl, ◌∙◌, ap, ◌⊎◌, inl, inr, Bool, true, false, Option, List, [], ◌∷◌, ◌++◌,
  if◌then◌else◌, Bool-cases, Option-cases, ℤ,
}
use odoo_cloudflare_email.Text.{Text, Bytes}
use odoo_cloudflare_email.Errors.{Result-cases}
use odoo_cloudflare_email.Api.Host.{Host}
use odoo_cloudflare_email.Fetchmail.Signature.{verify_signature}
use odoo_cloudflare_email.Fetchmail.Envelope.{prepare_message}
use odoo_cloudflare_email.Fetchmail.Envelope.Raises.{prepare_message-eq-err}
use odoo_cloudflare_email.Fetchmail.Server.{find_by_key}
use odoo_cloudflare_email.Fetchmail.Inbound.{
  Processed, posted, invalid, concurrency, crashed, Request, Response, Handled, answered, reraised,
  Database, Cursor, MessageProcess, raised_as, dated, process_message, settle, process_inbound,
  inbound_on, inbound, respond_error, respond_delivered,
}
use odoo_cloudflare_email.Fetchmail.Inbound.Contract.{begin, IsDelivery, IsSafe, inbound-IsSafe}
use odoo_cloudflare_email.Worker.Backoff.{Verdict, classify_status}
use odoo_cloudflare_email.Worker.Backoff

-- What all the requests for a message have in common.
pub record Mail : Type 0 where
  pub id : Option Text
  pub envelope_from : Option Text
  pub envelope_to : Option Text
  pub body : Bytes

-- One run: the signature of its request, the clock and the date of the server, and whether another
-- run follows on a concurrency error.
pub record Try : Type 0 where
  pub timestamp : Option Text
  pub signature : Option Text
  pub now : ℤ
  pub date : ℕ
  pub runs_again : Bool

abbrev pub request_for : Mail → Try → Request
request_for m t = record {
  id = m.id;
  timestamp = t.timestamp;
  signature = t.signature;
  envelope_from = m.envelope_from;
  envelope_to = m.envelope_to;
  body = m.body;
}

abbrev means_retry : Verdict → Bool
means_retry Backoff.retry = true
means_retry _ = false

abbrev means_delivered : Verdict → Bool
means_delivered Backoff.delivered = true
means_delivered _ = false

-- Whether another run follows.
unfoldable pub runs_on : Try → Handled → Bool
unfolding classify_status
runs_on t reraised = t.runs_again
runs_on t (answered response) = means_retry (classify_status response.status)

-- Whether the Worker takes the message for delivered.
unfoldable pub is_accepted : Handled → Bool
unfolding classify_status
is_accepted reraised = false
is_accepted (answered response) = means_delivered (classify_status response.status)

-- A status that the webhook answers with, apart from 200.
abbrev IsRefusal : ℕ → Type 0
IsRefusal status = (status ≡ 401) ⊎ ((status ≡ 404) ⊎ ((status ≡ 422) ⊎ (status ≡ 500)))

abbrev IsKnown : Handled → Type 0
IsKnown reraised = Unit
IsKnown (answered response) = (response.status ≡ 200) ⊎ IsRefusal response.status

module _ {R : Type 0} (h : Host) (hexdigest : Bytes → Bytes → Text) (unquote : Text → Text)
    (message_process : MessageProcess R) (key : Text) where
  settle-IsKnown :
      (worker_id : Option Text) (id date : ℕ) (outcome : Processed × Database R) (cr : Cursor R)
      → IsKnown (settle worker_id (dated id date outcome) cr).0
  unfolding settle dated respond_error respond_delivered
  settle-IsKnown worker_id id date (posted thread_id, after) cr = inl refl
  settle-IsKnown worker_id id date (invalid text, after) cr = inr (inr (inr (inl refl)))
  settle-IsKnown worker_id id date (concurrency, after) cr = tt
  settle-IsKnown worker_id id date (crashed, after) cr = inr (inr (inr (inr refl)))

  inbound-IsKnown :
      (r : Request) (now : ℤ) (date : ℕ) (db : Database R)
      → IsKnown (inbound h hexdigest unquote message_process key r now date (begin db)).0
  unfolding inbound inbound_on respond_error process_inbound process_message settle raised_as
  inbound-IsKnown r now date db = elim (Option-cases (find_by_key key db.servers)) [
    | inl e ↦ rw e (inr (inr (inl refl)))
    | inr (server, e) ↦
        elim (Bool-cases
          (verify_signature h hexdigest server.webhook_secret r.timestamp r.signature r.body now)) [
            | inr v ↦ rw (e, v) (inr (inl refl))
            | inl v ↦
                elim (Result-cases (prepare_message unquote r.body r.envelope_from r.envelope_to)) [
                  | inl (message, p) ↦
                      rw (e, v, p) (settle-IsKnown r.id server.id date _ (begin db))
                  | inr (x, p) ↦
                      let (text, same) =
                        prepare_message-eq-err unquote r.body r.envelope_from r.envelope_to x p in
                      rw (e, v, p, same) (inr (inr (inr (inl refl))))
                ]
          ]
  ]

module _ {R : Type 0} (h : Host) (hexdigest : Bytes → Bytes → Text) (unquote : Text → Text)
    (message_process : MessageProcess R) (key : Text) (finish : Handled → Cursor R → Database R)
    (m : Mail) where
  -- The runs for one message, with whether the last answer accepted it.
  unfoldable pub deliver : List Try → Database R → Bool × Database R
  unfolding inbound runs_on is_accepted
  deliver [] db = (false, db)
  deliver (t ∷ ts) db =
      let (handled, cr) =
        inbound h hexdigest unquote message_process key (request_for m t) t.now t.date (begin db) in
      let db' = finish handled cr in
      let again = deliver ts db' in if runs_on t handled then again else (is_accepted handled, db')

  -- One of the runs delivered the message: its request was authentic at its time, `message_process`
  -- ran on the database as it was before all of them, and what it made of it is what is left.
  pub record IsDelivered (ts : List Try) (db after : Database R) : Type 0 where
    pub before : List Try
    pub try : Try
    pub later : List Try
    pub tries : ts ≡ before ++ try ∷ later
    pub cursor : Cursor R
    pub delivery :
        IsDelivery h hexdigest unquote message_process key
          (request_for m try)
          try.now
          try.date
          db
          cursor
    pub left : after ≡ cursor.working

  -- What the runs have done: nothing, or one delivery.
  abbrev pub IsOnce : List Try → Database R → Bool × Database R → Type 0
  IsOnce ts db (true, after) = IsDelivered ts db after
  IsOnce ts db (false, after) = after ≡ db

  later-IsOnce :
      (t : Try) (ts : List Try) (db : Database R) (result : Bool × Database R)
      → IsOnce ts db result
      → IsOnce (t ∷ ts) db result
  later-IsOnce t ts db (false, after) same = same
  later-IsOnce t ts db (true, after) d = record {
    before = t ∷ d.before;
    try = d.try;
    later = d.later;
    tries = ap (λ x. t ∷ x) d.tries;
    cursor = d.cursor;
    delivery = d.delivery;
    left = d.left;
  }

  -- A run that changes nothing leaves the message to the others.
  undone-IsOnce :
      (t : Try) (ts : List Try) (goes accepted : Bool) (again : Bool × Database R)
      (db after : Database R)
      → accepted ≡ false
      → after ≡ db
      → IsOnce ts db again
      → IsOnce (t ∷ ts) db (if goes then again else (accepted, after))
  undone-IsOnce t ts true accepted again db after refused same once =
      later-IsOnce t ts db again once
  undone-IsOnce t ts false accepted again db after refused same once = rw refused same

  -- A run that delivers is the last one.
  delivered-IsOnce :
      (ts : List Try) (goes accepted : Bool) (again : Bool × Database R) (db after : Database R)
      → goes ≡ false
      → accepted ≡ true
      → IsDelivered ts db after
      → IsOnce ts db (if goes then again else (accepted, after))
  delivered-IsOnce ts goes accepted again db after last took d = rw (last, took) d

  module _ (commits : (r : Response) (cr : Cursor R) → finish (answered r) cr ≡ cr.working)
      (rolls_back : (cr : Cursor R) → finish reraised cr ≡ cr.committed) where
    answered-IsOnce :
        (t : Try) (ts : List Try) (db : Database R) (rest : Database R → Bool × Database R)
        (r : Response) (cr : Cursor R)
        → IsSafe h hexdigest unquote message_process key
            (request_for m t)
            t.now
            t.date
            db
            (answered r)
            cr
        → (r.status ≡ 200) ⊎ IsRefusal r.status
        → IsOnce ts db (rest db)
        → IsOnce (t ∷ ts) db (
            if runs_on t (answered r)
            then rest (finish (answered r) cr)
            else (is_accepted (answered r), finish (answered r) cr))
    unfolding runs_on is_accepted classify_status
    answered-IsOnce t ts db rest r cr (inl (ok_status, same, delivery)) known once =
        delivered-IsOnce (t ∷ ts) (runs_on t (answered r)) (is_accepted (answered r))
          (rest (finish (answered r) cr)) db (finish (answered r) cr) (rw ok_status refl)
          (rw ok_status refl)
          (record {
            before = [];
            try = t;
            later = ts;
            tries = refl;
            cursor = cr;
            delivery = delivery;
            left = commits r cr;
          })
    answered-IsOnce t ts db rest r cr (inr (refused, same)) known once =
        let left : finish (answered r) cr ≡ db =
          commits r cr ∙ ap (λ (c : Cursor R). c.working) same in
        rw left (
          undone-IsOnce t ts (runs_on t (answered r)) (is_accepted (answered r)) (rest db) db db
            (elim known [
              | inl e ↦ absurd (refused e)
              | inr (inl e) ↦ rw e refl
              | inr (inr (inl e)) ↦ rw e refl
              | inr (inr (inr (inl e))) ↦ rw e refl
              | inr (inr (inr (inr e))) ↦ rw e refl
            ])
            refl once)

    try-IsOnce :
        (t : Try) (ts : List Try) (db : Database R) (rest : Database R → Bool × Database R)
        (handled : Handled) (cr : Cursor R)
        → IsSafe h hexdigest unquote message_process key
            (request_for m t)
            t.now
            t.date
            db
            handled
            cr
        → IsKnown handled
        → IsOnce ts db (rest db)
        → IsOnce (t ∷ ts) db (
            if runs_on t handled
            then rest (finish handled cr)
            else (is_accepted handled, finish handled cr))
    unfolding runs_on is_accepted
    try-IsOnce t ts db rest reraised cr (same, after, processed) known once =
        let left : finish reraised cr ≡ db = rolls_back cr ∙ same in
        rw left (undone-IsOnce t ts t.runs_again false (rest db) db db refl refl once)
    try-IsOnce t ts db rest (answered r) cr safe known once =
        answered-IsOnce t ts db rest r cr safe known once

    -- Where the framework commits behind an answer and rolls back behind a concurrency error, and
    -- each answer reaches the Worker, which reads it by its status: over all the runs of the handler
    -- for one message, either none was accepted and the database is as it was, or one of them was:
    -- its request was signed in time, and the database is as `message_process` made it from this
    -- message and the database before all of them, with the server's date.
    pub deliver-IsOnce : (ts : List Try) (db : Database R) → IsOnce ts db (deliver ts db)
    unfolding deliver
    deliver-IsOnce [] db = refl
    deliver-IsOnce (t ∷ ts) db =
        try-IsOnce t ts db (deliver ts) _ _
          (inbound-IsSafe h hexdigest unquote message_process key (request_for m t) t.now t.date db)
          (inbound-IsKnown h hexdigest unquote message_process key (request_for m t) t.now t.date
            db)
          (deliver-IsOnce ts db)
