-- ===== src/Worker/Pass.antt =====
-- worker/src/inbox-do.ts: the alarm's pass over the queue, and everything that can happen to the
-- queue as steps. Between two steps the Worker waits for R2 or for Odoo, and another one may come.
pub mod Rows
pub mod Statements
pub mod Armed
pub mod OnTime
pub mod Sound
pub mod Consistent
pub mod Find
pub mod Kept
pub mod Lost
use odoo_cloudflare_email.Prelude.{
  ℕ, ◌+◌, ◌≤◌, ◌≡◌, Bool, true, false, ◌&&◌, ◌||◌, Option, none, some, List, [], ◌∷◌, map, ltb, leb,
  if◌then◌else◌, ◌==◌, is_empty,
}
use odoo_cloudflare_email.Text.{Text, Bytes, contains}
use odoo_cloudflare_email.Json.{Json}
use odoo_cloudflare_email.Worker.Config.{WorkerConfig, delivery_delay_ms}
use odoo_cloudflare_email.Worker.Answer.{Fetched}
use odoo_cloudflare_email.Worker.Inbox.{
  InboxStatus, EnqueueInput, InboxRow, Inbox, is_pending, id_of, enqueue, retry, retry_all,
  delete_where, remove_row,
}
use odoo_cloudflare_email.Worker.Inbox.Order.{text_before, keep, sort_by, take}
use odoo_cloudflare_email.Worker.Attempt.{Delivery, deliver_row}

abbrev pub alarm_batch : ℕ
alarm_batch = 10

abbrev pub purge_batch : ℕ
purge_batch = 100

abbrev pub alarm_retry_ms : ℕ
alarm_retry_ms = 60000

-- Whether an optional time has come; NULL is no time.
abbrev pub has_come : ℕ → Option ℕ → Bool
has_come now none = false
has_come now (some at) = leb at now

abbrev pub is_some : Option ℕ → Bool
is_some none = false
is_some (some _) = true

abbrev or_zero : Option ℕ → ℕ
or_zero none = 0
or_zero (some n) = n

abbrev pub due_before : InboxRow → InboxRow → Bool
due_before a b =
    let s = or_zero a.next_attempt_at in
    let t = or_zero b.next_attempt_at in ltb s t || s == t && text_before a.id b.id

-- The rows that `processDue` takes.
unfoldable pub due : ℕ → ℕ → List InboxRow → List InboxRow
unfolding keep sort_by take text_before
due now batch rows = take batch (
    sort_by due_before
      (keep (λ row. is_pending row.status && has_come now row.next_attempt_at) rows))

-- The rows that `purgeExpired` takes; SQLite may order rows with one time in another way.
unfoldable pub expired : ℕ → List InboxRow → List InboxRow
unfolding keep sort_by take
expired now rows = take purge_batch (
    sort_by (λ a b. ltb (or_zero a.purge_at) (or_zero b.purge_at))
      (keep (λ row. has_come now row.purge_at) rows))

-- `purgeExpired` behind the deletion of the objects of these rows.
unfoldable pub purge_rows : List InboxRow → Inbox → Inbox
unfolding delete_where
purge_rows taken q =
    delete_where (λ row. contains row.id (map id_of taken) && is_some row.purge_at) q

abbrev pub earlier : Option ℕ → Option ℕ → Option ℕ
earlier none b = b
earlier (some a) none = some a
earlier (some a) (some b) = some (if ltb b a then b else a)

-- The times of a row in the `UNION ALL` of `rearm`.
abbrev pub time_of : InboxRow → Option ℕ
time_of row = earlier (if is_pending row.status then row.next_attempt_at else none) row.purge_at

unfoldable pub earliest : List InboxRow → Option ℕ
earliest [] = none
earliest (row ∷ rows) = earlier (time_of row) (earliest rows)

-- `rearm`.
unfoldable pub rearm : Inbox → Inbox
unfolding earliest
rearm q = record q { alarm = earliest q.rows }

-- Where `alarm` is: in no pass, with the time at which the last one failed, if it did; in the loop
-- over rows with the loaded configuration; before the search for expired rows, and before their
-- deletion; before the next alarm. The Boolean is `healthy`.
pub data Phase : Type 0 where
  idle : Option ℕ → Phase
  delivering : WorkerConfig → List InboxRow → Phase
  searching : Bool → Phase
  deleting : Bool → List InboxRow → Phase
  closing : Bool → Phase

pub record Queue : Type 0 where
  pub inbox : Inbox
  pub phase : Phase

-- The start of `processDue`; none is a configuration that does not load.
unfoldable pub begin_pass : Option WorkerConfig → ℕ → List InboxRow → Phase
unfolding due
begin_pass config now rows =
    let found = due now alarm_batch rows in
    if is_empty found
    then searching true
    else elim config [ none ↦ searching false | some loaded ↦ delivering loaded found ]

-- The search of `purgeExpired`.
unfoldable pub begin_purge : Bool → ℕ → List InboxRow → Phase
unfolding expired
begin_purge healthy now rows =
    let found = expired now rows in
    if is_empty found then closing healthy else deleting healthy found

-- The last part of `alarm`.
unfoldable pub end_pass : Bool → ℕ → Inbox → Queue
unfolding rearm
end_pass true now q = record { inbox = rearm q; phase = idle none }
end_pass false now q = record {
  inbox = record q { alarm = some (now + alarm_retry_ms) };
  phase = idle (some now);
}

-- An attempt that raises leaves the table as it was.
abbrev pub or_unchanged : Inbox → Option Inbox → Inbox
or_unchanged q none = q
or_unchanged q (some q') = q'

-- One step, where no configuration allows more attempts than `limit`.
module _ (parse_json : Text → Option Json) (hexdigest : Bytes → Bytes → Text) (version : Text)
    (limit : ℕ) where
  pub data Step (s t : Queue) : Type 0 where
    enqueued :
        (config : Option WorkerConfig) (input : EnqueueInput) (now : ℕ)
        → t ≡ record s { inbox = (enqueue (delivery_delay_ms config) input now s.inbox).1 }
        → Step s t
    retried : (id : Text) (now : ℕ) → t ≡ record s { inbox = (retry id now s.inbox).1 } → Step s t
    retried_all :
        (status : InboxStatus) (now count : ℕ)
        → retry_all status now s.inbox ≡ some (count, t.inbox)
        → t.phase ≡ s.phase
        → Step s t
    removed : (id : Text) → t ≡ record s { inbox = remove_row id s.inbox } → Step s t
    -- The runtime clears the alarm before it calls `alarm`.
    fired :
        (last : Option ℕ) (config : Option WorkerConfig) (at now : ℕ)
        → s.phase ≡ idle last
        → s.inbox.alarm ≡ some at
        → at ≤ now
        → t ≡ record {
          inbox = record s.inbox { alarm = none };
          phase = begin_pass config now s.inbox.rows;
        }
        → Step s t
    attempted :
        (fetch : Delivery → Fetched) (object : Option Bytes) (config : WorkerConfig)
        (row : InboxRow) (rest : List InboxRow) (sent now : ℕ)
        → config.max_attempts ≤ limit
        → s.phase ≡ delivering config (row ∷ rest)
        → t ≡ record {
          inbox =
              or_unchanged s.inbox
                (deliver_row parse_json hexdigest version fetch config row object sent now s.inbox);
          phase = delivering config rest;
        }
        → Step s t
    -- What R2 raises before an attempt is sent ends that attempt.
    interrupted :
        (config : WorkerConfig) (row : InboxRow) (rest : List InboxRow)
        → s.phase ≡ delivering config (row ∷ rest)
        → t ≡ record s { phase = delivering config rest }
        → Step s t
    attempted_all :
        (config : WorkerConfig)
        → s.phase ≡ delivering config []
        → t ≡ record s { phase = searching true }
        → Step s t
    searched :
        (healthy : Bool) (now : ℕ)
        → s.phase ≡ searching healthy
        → t ≡ record s { phase = begin_purge healthy now s.inbox.rows }
        → Step s t
    purged :
        (healthy : Bool) (taken : List InboxRow)
        → s.phase ≡ deleting healthy taken
        → t ≡ record { inbox = purge_rows taken s.inbox; phase = closing healthy }
        → Step s t
    purge_failed :
        (healthy : Bool) (taken : List InboxRow)
        → s.phase ≡ deleting healthy taken
        → t ≡ record s { phase = closing false }
        → Step s t
    ended :
        (healthy : Bool) (now : ℕ)
        → s.phase ≡ closing healthy
        → t ≡ end_pass healthy now s.inbox
        → Step s t

  pub data Reach (s : Queue) : Queue → Type 0 where
    here : Reach s s
    next : {t u : Queue} → Reach s t → Step t u → Reach s u
