-- ===== src/Worker/Inbox.antt =====
-- worker/src/inbox-do.ts: the queue's table and its alarm, and the operations on them. A function is
-- what runs without an interruption; where the code waits for R2 or for Odoo, two functions meet.
-- Times are milliseconds since the epoch. The logging is left out.
pub mod Order
use odoo_cloudflare_email.Prelude.{
  ℕ, ◌+◌, Bool, true, false, not, ◌&&◌, Option, none, some, List, [], ◌∷◌, ◌++◌, map, ltb, leb,
  if◌then◌else◌, ◌==◌, is_empty, length,
}
use odoo_cloudflare_email.Text.{Text, text_eq, contains}
use odoo_cloudflare_email.Json.{Number}
use odoo_cloudflare_email.Worker.Backoff.{Verdict, backoff_ms}
use odoo_cloudflare_email.Worker.Strings.{slice}
use odoo_cloudflare_email.Worker.Config.{WorkerConfig}
use odoo_cloudflare_email.Worker.Answer.{max_error_chars}
use Order.{text_before, keep, sort_by, take}

pub data InboxStatus : Type 0 where
  pending delivered rejected dead : InboxStatus

abbrev pub is_pending : InboxStatus → Bool
is_pending pending = true
is_pending _ = false

abbrev pub status_eq : InboxStatus → InboxStatus → Bool
status_eq pending pending = true
status_eq delivered delivered = true
status_eq rejected rejected = true
status_eq dead dead = true
status_eq _ _ = false

pub record EnqueueInput : Type 0 where
  pub id : Text
  pub r2_key : Text
  pub from : Text
  pub to : Text
  pub message_id : Option Text
  pub size : ℕ
  pub received_at : ℕ

pub record InboxRow : Type 0 where
  pub id : Text
  pub r2_key : Text
  pub envelope_from : Text
  pub envelope_to : Text
  pub message_id : Option Text
  pub size : ℕ
  pub received_at : ℕ
  pub status : InboxStatus
  pub attempts : ℕ
  pub next_attempt_at : Option ℕ
  pub last_attempt_at : Option ℕ
  pub last_status : Option ℕ
  pub last_error : Option Text
  pub thread_id : Option Number
  pub delivered_at : Option ℕ
  pub purge_at : Option ℕ

-- The storage of the object: the table in the order of insertion, and the alarm.
pub record Inbox : Type 0 where
  pub rows : List InboxRow
  pub alarm : Option ℕ

abbrev pub id_of : InboxRow → Text
id_of row = row.id

-- `get`.
unfoldable pub find_row : Text → List InboxRow → Option InboxRow
find_row id [] = none
find_row id (row ∷ rows) = if text_eq row.id id then some row else find_row id rows

-- `armNoLaterThan`.
unfoldable pub arm_no_later_than : ℕ → Inbox → Inbox
arm_no_later_than at q = elim q.alarm [
  | none ↦ record q { alarm = some at }
  | some current ↦ if ltb at current then record q { alarm = some at } else q
]

-- The row of a new message.
unfoldable pub row_of : EnqueueInput → ℕ → InboxRow
row_of input next_attempt_at = record {
  id = input.id;
  r2_key = input.r2_key;
  envelope_from = input.from;
  envelope_to = input.to;
  message_id = input.message_id;
  size = input.size;
  received_at = input.received_at;
  status = pending;
  attempts = 0;
  next_attempt_at = some next_attempt_at;
  last_attempt_at = none;
  last_status = none;
  last_error = none;
  thread_id = none;
  delivered_at = none;
  purge_at = none;
}

-- `enqueue`, after a delay: whether the row is new.
unfoldable pub enqueue : ℕ → EnqueueInput → ℕ → Inbox → Bool × Inbox
unfolding row_of arm_no_later_than
enqueue delay input now q = if contains input.id (map id_of q.rows) then (false, q) else (
  true,
  arm_no_later_than (now + delay) (record q { rows = q.rows ++ row_of input (now + delay) ∷ [] }),
)

-- `UPDATE inbox SET ... WHERE ...`.
unfoldable pub update_where :
    (InboxRow → Bool) → (InboxRow → InboxRow) → List InboxRow → List InboxRow
update_where p change [] = []
update_where p change (row ∷ rows) =
    (if p row then change row else row) ∷ update_where p change rows

-- The new values of a row that is queued again.
unfoldable pub requeue : ℕ → InboxRow → InboxRow
requeue now row = record row {
  status = pending;
  attempts = 0;
  next_attempt_at = some now;
  purge_at = none;
}

pub data RetryResult : Type 0 where
  requeued not_found already_pending : RetryResult

-- Queues the rows again that a condition holds of, and counts them.
unfoldable pub requeue_where : (InboxRow → Bool) → ℕ → Inbox → ℕ × Inbox
unfolding update_where requeue arm_no_later_than keep
requeue_where p now q =
    let count = length (keep p q.rows) in
    let updated = record q { rows = update_where p (requeue now) q.rows } in
    (count, if count == 0 then updated else arm_no_later_than now updated)

-- The row with an id that is not pending.
abbrev pub is_parked : Text → InboxRow → Bool
is_parked id row = text_eq row.id id && not (is_pending row.status)

-- `retry`.
unfoldable pub retry : Text → ℕ → Inbox → RetryResult × Inbox
unfolding requeue_where
retry id now q =
    let (count, q') = requeue_where (is_parked id) now q in
    (
      if count == 0
          then (if contains id (map id_of q.rows) then already_pending else not_found)
          else requeued,
      q',
    )

abbrev pub is_retryable : InboxStatus → Bool
is_retryable dead = true
is_retryable rejected = true
is_retryable _ = false

-- `retryAll`; none is its `RangeError`.
unfoldable pub retry_all : InboxStatus → ℕ → Inbox → Option (ℕ × Inbox)
unfolding requeue_where
retry_all status now q =
    if is_retryable status
    then some (requeue_where (λ row. status_eq row.status status) now q)
    else none

-- `DELETE FROM inbox WHERE ...`.
unfoldable pub delete_where : (InboxRow → Bool) → Inbox → Inbox
unfolding keep
delete_where p q = record q { rows = keep (λ row. not (p row)) q.rows }

-- `remove` behind the deletion of the object: it deletes the row of an id.
unfoldable pub remove_row : Text → Inbox → Inbox
unfolding delete_where
remove_row id q = delete_where (λ row. text_eq row.id id) q
