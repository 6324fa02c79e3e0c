-- ===== src/Fetchmail/Inbound.antt =====
-- `_cloudflare_process_inbound`, and the webhook's handler in controllers/main.py: one request in one
-- database transaction. `message_process` of Odoo is a parameter, which may change the records and
-- the servers and may raise. `ensure_db` and the logging are left out.
pub mod Contract
pub mod Retries
pub mod Once
use odoo_cloudflare_email.Prelude.{
  ℕ, Bool, true, false, not, Option, none, some, List, [], ◌∷◌, if◌then◌else◌, is_empty, ◌==◌, ℤ,
  zero, suc,
}
use odoo_cloudflare_email.Text.{Text, Bytes, codes}
use odoo_cloudflare_email.Text.Number.{decimal}
use odoo_cloudflare_email.Json.{Json, Fields, Number, num, bool, str, obj, end, field}
use odoo_cloudflare_email.Errors.{Exception, value_error, Result, ok, err}
use odoo_cloudflare_email.Api.Host.{Host}
use odoo_cloudflare_email.Fetchmail.Signature.{verify_signature}
use odoo_cloudflare_email.Fetchmail.Envelope.{prepare_message}
use odoo_cloudflare_email.Fetchmail.Server.{Server, find_by_key, write_date}

-- The arguments of `message_process`, and of the context that it runs in.
pub record Call : Type 0 where
  pub fetchmail_server_id : ℕ
  pub model : Option Text
  pub message : Bytes
  pub save_original : Bool
  pub strip_attachments : Bool

-- How Odoo's code ends: with a record's id (none is False), or with one of
-- the exceptions that the handler tells apart.
pub data Processed : Type 0 where
  posted : Option ℕ → Processed
  invalid : Text → Processed
  concurrency : Processed
  crashed : Processed

pub record Request : Type 0 where
  pub id : Option Text
  pub timestamp : Option Text
  pub signature : Option Text
  pub envelope_from : Option Text
  pub envelope_to : Option Text
  pub body : Bytes

pub record Response : Type 0 where
  pub status : ℕ
  pub payload : Json

-- `value or False` of an optional text, and of an id.
unfoldable pub text_or_false : Option Text → Json
text_or_false none = bool false
text_or_false (some t) = if is_empty t then bool false else str t

unfoldable pub id_or_false : Option ℕ → Json
id_or_false none = bool false
id_or_false (some n) =
    if n == 0 then bool false else num (record { printed = decimal n; is_zero = false })

-- The last key of an answer.
unfoldable pub error_field : Text → Fields
error_field error = if is_empty error then end else field (codes "error") (str error) end

-- `_respond` without values, and with the two of a delivery.
unfoldable pub respond_error : ℕ → Text → Response
unfolding error_field
respond_error status error = record {
  status = status;
  payload = obj (field (codes "ok") (bool (status == 200)) (error_field error));
}

unfoldable pub respond_delivered : Option ℕ → Option Text → Response
unfolding text_or_false id_or_false
respond_delivered thread_id worker_id = record {
  status = 200;
  payload = obj (
      field (codes "ok") (bool true) (
        field (codes "thread_id") (id_or_false thread_id)
          (field (codes "id") (text_or_false worker_id) end)));
}

-- What the handler gives to the framework: an answer, or a concurrency error, on which the
-- framework runs the request again.
pub data Handled : Type 0 where
  answered : Response → Handled
  reraised : Handled

-- The servers, and all other records of the database.
pub record Database (R : Type 0) : Type 0 where
  pub servers : List Server
  pub records : R

-- What the last commit left, and what the transaction has made of it.
pub record Cursor (R : Type 0) : Type 0 where
  pub committed : Database R
  pub working : Database R

abbrev pub MessageProcess : Type 0 → Type 0
MessageProcess R = Call → Database R → Processed × Database R

unfoldable pub rollback : {R : Type 0} → Cursor R → Cursor R
rollback cr = record cr { working = cr.committed }

-- An exception of the code before `message_process`.
unfoldable pub raised_as : Exception → Processed
raised_as (value_error text) = invalid text
raised_as _ = crashed

-- The call that routes a message.
abbrev pub call_of : Server → Bytes → Call
call_of server message = record {
  fetchmail_server_id = server.id;
  model = server.object_model;
  message = message;
  save_original = server.original;
  strip_attachments = not server.attach;
}

module _ {R : Type 0} where
  -- The write of the date behind `message_process`.
  unfoldable pub dated : ℕ → ℕ → Processed × Database R → Processed × Database R
  dated id date (posted thread_id, db) =
      (posted thread_id, record db { servers = write_date id date db.servers })
  dated id date (raised, db) = (raised, db)

  unfoldable pub process_message :
      MessageProcess R → Server → ℕ → Result Bytes → Database R → Processed × Database R
  unfolding raised_as dated
  process_message message_process server date (err e) db = (raised_as e, db)
  process_message message_process server date (ok message) db =
      dated server.id date (message_process (call_of server message) db)

  -- The `try` of the handler around what `_cloudflare_process_inbound` did.
  unfoldable pub settle : Option Text → Processed × Database R → Cursor R → Handled × Cursor R
  unfolding rollback respond_error respond_delivered
  settle worker_id (posted thread_id, db) cr =
      (answered (respond_delivered thread_id worker_id), record cr { working = db })
  settle worker_id (invalid text, db) cr =
      (answered (respond_error 422 text), rollback (record cr { working = db }))
  settle worker_id (concurrency, db) cr = (reraised, record cr { working = db })
  settle worker_id (crashed, db) cr =
      (answered (respond_error 500 (codes "internal error")), rollback (record cr { working = db }))

module _ {R : Type 0} (h : Host) (hexdigest : Bytes → Bytes → Text) (unquote : Text → Text)
    (message_process : MessageProcess R) where
  -- `_cloudflare_process_inbound`, with the present date.
  unfoldable pub process_inbound : Server → Request → ℕ → Database R → Processed × Database R
  unfolding process_message
  process_inbound server r date db =
      process_message message_process server date
        (prepare_message unquote r.body r.envelope_from r.envelope_to) db

  -- The handler behind the lookup; `now` is the clock in seconds.
  unfoldable pub inbound_on : Option Server → Request → ℤ → ℕ → Cursor R → Handled × Cursor R
  unfolding process_inbound settle respond_error
  inbound_on none r now date cr = (answered (respond_error 404 (codes "unknown webhook key")), cr)
  inbound_on (some server) r now date cr =
      if not (verify_signature h hexdigest server.webhook_secret r.timestamp r.signature r.body now)
      then (answered (respond_error 401 (codes "invalid signature")), cr)
      else settle r.id (process_inbound server r date cr.working) cr

  -- `inbound`.
  unfoldable pub inbound : Text → Request → ℤ → ℕ → Cursor R → Handled × Cursor R
  unfolding inbound_on
  inbound key r now date cr = inbound_on (find_by_key key cr.working.servers) r now date cr
