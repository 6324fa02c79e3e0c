-- ===== src/Worker/Pass/Kept.antt =====
-- What becomes of a message in the queue: which steps change its row, and which drop it.
use odoo_cloudflare_email.Prelude.{
  ℕ, ◌+◌, ◌≡◌, refl, ◌≢◌, sym, ◌∙◌, inl, inr, Bool, true, false, ◌&&◌, Option, none, some, [], ◌∷◌,
  map, Bool-cases, Option-cases, arith, ◌==◌, length,
}
use odoo_cloudflare_email.Text.{Text, Bytes, text_eq, contains}
use odoo_cloudflare_email.Text.Equality.{text_eq→eq}
use odoo_cloudflare_email.Json.{Json}
use odoo_cloudflare_email.Worker.Config.{WorkerConfig, delivery_delay_ms}
use odoo_cloudflare_email.Worker.Answer.{Fetched}
use odoo_cloudflare_email.Worker.Inbox
use odoo_cloudflare_email.Worker.Inbox.{
  InboxStatus, EnqueueInput, InboxRow, Inbox, id_of, is_pending, row_of, enqueue, retry, retry_all,
  requeue, requeue_where, is_parked, is_retryable, status_eq, arm_no_later_than, delete_where,
  remove_row, find_row, update_where,
}
use odoo_cloudflare_email.Worker.Inbox.Order.{keep}
use odoo_cloudflare_email.Worker.Attempt.{
  Delivery, Ending, next_attempt, outcome_of, settled, settle_row, deliver_row,
}
use odoo_cloudflare_email.Worker.Pass.{
  Queue, purge_rows, or_unchanged, is_some, Step, enqueued, retried, retried_all, removed, fired,
  attempted, interrupted, attempted_all, searched, purged, purge_failed, ended,
}
use odoo_cloudflare_email.Worker.Pass.Rows.{IsSound, is_timed}
use odoo_cloudflare_email.Worker.Pass.Sound.{arm_no_later_than-rows, deliver_row-cases}
use odoo_cloudflare_email.Worker.Pass.Find.{
  find_row-All, find_row-id, find_row-append, find_row-keep, find_row-update_where,
}
use odoo_cloudflare_email.Worker.Pass.OnTime.{end_pass-rows}
use odoo_cloudflare_email.Worker.Pass.Consistent.{IsConsistent}

-- How a row follows another one in a step: an attempt settles a pending row, and a row that is not
-- pending is queued again.
pub data Follows (row row' : InboxRow) : Type 0 where
  unchanged : row' ≡ row → Follows row row'
  settled_by :
      (config : WorkerConfig) (e : Ending) (at : Option ℕ) (now : ℕ)
      → is_pending row.status ≡ true
      → row' ≡ settled config e at now row
      → Follows row row'
  requeued : (now : ℕ) → is_pending row.status ≡ false → row' ≡ requeue now row → Follows row row'

-- What becomes of the row of an id: it stays, as one that follows it, or is dropped where it was
-- delivered.
pub data Fate (t : Queue) (id : Text) (row : InboxRow) : Type 0 where
  stays :
      (row' : InboxRow) → find_row id t.inbox.rows ≡ some row' → Follows row row' → Fate t id row
  purged_of : row.status ≡ Inbox.delivered → Fate t id row

pending-settles :
    (config : WorkerConfig) (id id' : Text) (e : Ending) (now : ℕ) (q : Inbox) (row : InboxRow)
    → find_row id q.rows ≡ some row
    → (row' : InboxRow) × (find_row id (or_unchanged q (settle_row config id' e now q)).rows
        ≡ some row')
      × Follows row row'
unfolding settle_row settled
pending-settles config id id' e now q row found =
    elim (Option-cases
      (next_attempt config e.attempt (outcome_of config e.attempt e.verdict) now)) [
        | inl raised ↦ rw raised (row, found, unchanged refl)
        | inr (at, known) ↦
            let p = λ (r : InboxRow). text_eq r.id id' && is_pending r.status in
            let same =
              find_row-update_where id p (settled config e at now) (λ r. refl) q.rows row found in
            elim (Bool-cases (p row)) [
              | inl mine ↦ rw known (
                settled config e at now row,
                rw mine at same,
                settled_by config e at now (ground arith) refl,
              )
              | inr other ↦ rw known (row, rw other at same, unchanged refl)
            ]
      ]

parked-requeued :
    (p : InboxRow → Bool) (now : ℕ) (id : Text) (q : Inbox) (row : InboxRow)
    → ((r : InboxRow) → p r ≡ true → is_pending r.status ≡ false)
    → find_row id q.rows ≡ some row
    → (row' : InboxRow) × (find_row id (requeue_where p now q).1.rows ≡ some row')
      × Follows row row'
unfolding requeue_where requeue
parked-requeued p now id q row parked found =
    let same = find_row-update_where id p (requeue now) (λ r. refl) q.rows row found in
    let updated : (row' : InboxRow) × (find_row id (update_where p (requeue now) q.rows)
          ≡ some row')
        × Follows row row' =
      elim (Bool-cases (p row)) [
        | inl mine ↦ (requeue now row, rw mine at same, requeued now (parked row mine) refl)
        | inr other ↦ (row, rw other at same, unchanged refl)
      ] in
    elim (Bool-cases (length (keep p q.rows) == 0)) [
      | inl nothing ↦ rw nothing updated
      | inr some_rows ↦ rw some_rows (rw (arm_no_later_than-rows now _) updated)
    ]

enqueue-find_row :
    (delay : ℕ) (input : EnqueueInput) (now : ℕ) (id : Text) (q : Inbox) (row : InboxRow)
    → find_row id q.rows ≡ some row
    → find_row id (enqueue delay input now q).1.rows ≡ some row
unfolding enqueue
enqueue-find_row delay input now id q row found =
    elim (Bool-cases (contains input.id (map id_of q.rows))) [
      | inl present ↦ rw present found
      | inr new ↦ rw new (
          rw (arm_no_later_than-rows (now + delay) _)
            (find_row-append id q.rows (row_of input (now + delay) ∷ []) row found))
    ]

-- A row that has a time for its purge was delivered.
delivered_of_purge :
    (limit : ℕ) (row : InboxRow)
    → IsSound limit row
    → is_some row.purge_at ≡ true
    → row.status ≡ Inbox.delivered
delivered_of_purge limit row s e = timed row.status row.next_attempt_at row.purge_at s.timed e
  where
    timed :
        (status : InboxStatus) (at purge : Option ℕ)
        → is_timed status at purge ≡ true
        → is_some purge ≡ true
        → status ≡ Inbox.delivered
    timed Inbox.delivered at purge t e = refl
    timed Inbox.pending none purge t e = cc
    timed Inbox.pending (some at) none t e = cc
    timed Inbox.pending (some at) (some purge) t e = cc
    timed Inbox.rejected none none t e = cc
    timed Inbox.rejected none (some purge) t e = cc
    timed Inbox.rejected (some at) purge t e = cc
    timed Inbox.dead none none t e = cc
    timed Inbox.dead none (some purge) t e = cc
    timed Inbox.dead (some at) purge t e = cc

is_parked-parked : (id : Text) (r : InboxRow) → is_parked id r ≡ true → is_pending r.status ≡ false
is_parked-parked id r e = ground arith

retryable_parked :
    (wanted status : InboxStatus)
    → is_retryable wanted ≡ true
    → status_eq status wanted ≡ true
    → is_pending status ≡ false
retryable_parked wanted Inbox.delivered r e = refl
retryable_parked wanted Inbox.rejected r e = refl
retryable_parked wanted Inbox.dead r e = refl
retryable_parked Inbox.pending Inbox.pending r e = cc
retryable_parked Inbox.delivered Inbox.pending r e = cc
retryable_parked Inbox.rejected Inbox.pending r e = cc
retryable_parked Inbox.dead Inbox.pending r e = cc

retry_all-parked :
    (status : InboxStatus) (now count : ℕ) (id : Text) (q q' : Inbox) (row : InboxRow)
    → retry_all status now q ≡ some (count, q')
    → find_row id q.rows ≡ some row
    → (row' : InboxRow) × (find_row id q'.rows ≡ some row') × Follows row row'
unfolding retry_all
retry_all-parked status now count id q q' row e found = elim (Bool-cases (is_retryable status)) [
  | inr refused ↦ absurd (cc (rw refused at e))
  | inl accepted ↦
      let p = λ (r : InboxRow). status_eq r.status status in
      let same : (requeue_where p now q).1 ≡ q' = cc (rw accepted at e) in
      rw (← same)
        (parked-requeued p now id q row (λ r. retryable_parked status r.status accepted) found)
]

module _ (parse_json : Text → Option Json) (hexdigest : Bytes → Bytes → Text) (version : Text)
    (limit : ℕ) where
  attempted-settles :
      (fetch : Delivery → Fetched) (object : Option Bytes) (config : WorkerConfig)
      (taken : InboxRow) (sent now : ℕ) (id : Text) (q : Inbox) (row : InboxRow)
      → find_row id q.rows ≡ some row
      → let r = deliver_row parse_json hexdigest version fetch config taken object sent now q in
        (row' : InboxRow) × (find_row id (or_unchanged q r).rows ≡ some row') × Follows row row'
  attempted-settles fetch object config taken sent now id q row found =
      elim (deliver_row-cases parse_json hexdigest version fetch config taken object sent now q) [
        | inl raised ↦ rw raised (row, found, unchanged refl)
        | inr (e, _, _, settles) ↦ rw settles (pending-settles config id taken.id e now q row found)
      ]

  -- A step that is not the operator's removal of this id.
  abbrev pub Spares : {s t : Queue} → Text → Step parse_json hexdigest version limit s t → Type 0
  Spares id (enqueued config input now e) = Unit
  Spares id (retried id' now e) = Unit
  Spares id (retried_all status now count e same) = Unit
  Spares id (removed id' e) = id' ≢ id
  Spares id (fired last config at now idle_e armed past e) = Unit
  Spares id (attempted fetch object config r rest sent now allowed phase e) = Unit
  Spares id (interrupted config r rest phase e) = Unit
  Spares id (attempted_all config phase e) = Unit
  Spares id (searched healthy now phase e) = Unit
  Spares id (purged healthy taken phase e) = Unit
  Spares id (purge_failed healthy taken phase e) = Unit
  Spares id (ended healthy now phase e) = Unit

  -- What becomes of a row in one step of a consistent queue that is not its removal.
  pub Step-Fate :
      {s t : Queue} (id : Text) (row : InboxRow) (st : Step parse_json hexdigest version limit s t)
      → Spares id st
      → IsConsistent limit s
      → find_row id s.inbox.rows ≡ some row
      → Fate t id row
  Step-Fate {s = s} id row (enqueued config input now e) spared c found = rw e (
      stays row (enqueue-find_row (delivery_delay_ms config) input now id s.inbox row found)
        (unchanged refl))
  Step-Fate {s = s} id row (retried id' now e) spared c found =
      let (row', same, follows) =
        parked-requeued (is_parked id') now id s.inbox row (is_parked-parked id') found in
      rw e (stays row' (unfold retry in same) follows)
  Step-Fate {s = s} {t = t} id row (retried_all status now count e same) spared c found =
      let (row', kept, follows) =
        retry_all-parked status now count id s.inbox t.inbox row e found in
      stays row' kept follows
  Step-Fate {s = s} id row (removed id' e) spared c found = elim (Bool-cases (text_eq row.id id')) [
    | inl mine ↦ absurd (
        spared (
          sym (text_eq→eq row.id id' mine)
          ∙ text_eq→eq row.id id (find_row-id id s.inbox.rows row found)))
    | inr other ↦ rw e (
        stays row
          (unfold remove_row in
            unfold delete_where in find_row-keep id _ s.inbox.rows row found (rw other refl))
          (unchanged refl))
  ]
  Step-Fate {s = s} id row (fired last config at now idle_e armed past e) spared c found =
      rw e (stays row found (unchanged refl))
  Step-Fate {s = s} id row (attempted fetch object config r rest sent now allowed phase e) spared c
        found =
      let (row', same, follows) =
        attempted-settles fetch object config r sent now id s.inbox row found in
      rw e (stays row' same follows)
  Step-Fate {s = s} id row (interrupted config r rest phase e) spared c found =
      rw e (stays row found (unchanged refl))
  Step-Fate {s = s} id row (attempted_all config phase e) spared c found =
      rw e (stays row found (unchanged refl))
  Step-Fate {s = s} id row (searched healthy now phase e) spared c found =
      rw e (stays row found (unchanged refl))
  Step-Fate {s = s} id row (purged healthy taken phase e) spared c found =
      elim (Bool-cases (is_some row.purge_at)) [
        | inl timed ↦ purged_of (
            delivered_of_purge limit row
              (find_row-All (IsSound limit) id s.inbox.rows row c.rows.sound found) timed)
        | inr untimed ↦ rw e (
            stays row
              (unfold purge_rows in
                unfold delete_where in
                find_row-keep id _ s.inbox.rows row found (rw untimed (ground arith)))
              (unchanged refl))
      ]
  Step-Fate {s = s} id row (purge_failed healthy taken phase e) spared c found =
      rw e (stays row found (unchanged refl))
  Step-Fate {s = s} id row (ended healthy now phase e) spared c found =
      rw e (stays row (rw (end_pass-rows healthy now s.inbox) found) (unchanged refl))
