-- ===== src/Worker/Pass/OnTime.antt =====
-- How the phases of a pass keep the queue on time.
use odoo_cloudflare_email.Prelude.{
  ℕ, ◌+◌, ◌<◌, ◌≡◌, refl, inl, inr, Bool, true, false, Option, none, some, List, All, All-weaken,
  Bool-cases, arith, ◌&&◌, All-always, is_empty,
}
use odoo_cloudflare_email.Worker.Config.{WorkerConfig}
use odoo_cloudflare_email.Worker.Inbox
use odoo_cloudflare_email.Worker.Inbox.{
  InboxStatus, EnqueueInput, InboxRow, Inbox, id_of, is_pending, row_of, enqueue, retry, retry_all,
  requeue, requeue_where, is_parked, is_retryable, status_eq, arm_no_later_than, delete_where,
  remove_row,
}
use odoo_cloudflare_email.Worker.Inbox.Order.{keep, sort_by, sort_by-All, take-All}
use odoo_cloudflare_email.Worker.Pass.{
  alarm_batch, alarm_retry_ms, has_come, due_before, expired, time_of, Phase, idle, delivering,
  searching, deleting, closing, due, begin_pass, begin_purge, end_pass, rearm,
}
use odoo_cloudflare_email.Worker.Pass.Rows.{IsSound}
use odoo_cloudflare_email.Worker.Pass.Statements.{keep-holds}
use odoo_cloudflare_email.Worker.Pass.Armed.{AreCovered, Covers, earliest-AreCovered}

-- Outside a pass the alarm misses no row. In one, the rows that are to come have an attempt left.
abbrev pub IsOnTime : ℕ → Inbox → Phase → Type 0
IsOnTime limit q (idle failed) = AreCovered q.alarm failed q.rows
IsOnTime limit q (delivering config rest) = All (λ row. row.attempts < limit) rest
IsOnTime limit q _ = Unit

-- A phase of a pass asks nothing of the alarm and of the table.
pub IsOnTime-passes :
    (limit : ℕ) (q q' : Inbox) (phase : Phase)
    → ((failed : Option ℕ) → AreCovered q.alarm failed q.rows → AreCovered q'.alarm failed q'.rows)
    → IsOnTime limit q phase
    → IsOnTime limit q' phase
IsOnTime-passes limit q q' (idle failed) f o = f failed o
IsOnTime-passes limit q q' (delivering config rest) f o = o
IsOnTime-passes limit q q' (searching healthy) f o = o
IsOnTime-passes limit q q' (deleting healthy taken) f o = o
IsOnTime-passes limit q q' (closing healthy) f o = o

pending_of : (status : InboxStatus) → is_pending status ≡ true → status ≡ Inbox.pending
pending_of Inbox.pending e = refl
pending_of Inbox.delivered e = cc
pending_of Inbox.rejected e = cc
pending_of Inbox.dead e = cc

-- A row that is due has an attempt left.
due-left :
    (limit now batch : ℕ) (rows : List InboxRow)
    → All (IsSound limit) rows
    → All (λ row. row.attempts < limit) (due now batch rows)
unfolding due
due-left limit now batch rows s =
    let wanted = λ (row : InboxRow). is_pending row.status && has_come now row.next_attempt_at in
    let found = keep wanted rows in
    let left : All (λ row. row.attempts < limit) found =
      All-weaken found (λ row (e, sound). sound.left (pending_of row.status (ground arith)))
        (keep-holds (IsSound limit) wanted rows s) in
    take-All (λ row. row.attempts < limit) batch (sort_by due_before found)
      (sort_by-All (λ row. row.attempts < limit) due_before found left)

pub begin_pass-IsOnTime :
    (limit : ℕ) (config : Option WorkerConfig) (now : ℕ) (q : Inbox)
    → All (IsSound limit) q.rows
    → IsOnTime limit q (begin_pass config now q.rows)
unfolding begin_pass
begin_pass-IsOnTime limit config now q s =
    elim (Bool-cases (is_empty (due now alarm_batch q.rows))) [
      | inl e ↦ rw e tt
      | inr e ↦ rw e (loaded-IsOnTime config)
    ]
  where
    loaded-IsOnTime :
        (config : Option WorkerConfig)
        → IsOnTime limit q (elim config [
          | none ↦ searching false
          | some loaded ↦ delivering loaded (due now alarm_batch q.rows)
        ])
    loaded-IsOnTime none = tt
    loaded-IsOnTime (some loaded) = due-left limit now alarm_batch q.rows s

failed-Covers : (now : ℕ) (time : Option ℕ) → Covers (some (now + alarm_retry_ms)) (some now) time
failed-Covers now none = tt
failed-Covers now (some time) = inr (omega arith)

pub end_pass-rows :
    (healthy : Bool) (now : ℕ) (q : Inbox) → (end_pass healthy now q).inbox.rows ≡ q.rows
unfolding end_pass rearm
end_pass-rows true now q = refl
end_pass-rows false now q = refl

pub end_pass-IsOnTime :
    (limit : ℕ) (healthy : Bool) (now : ℕ) (q : Inbox)
    → IsOnTime limit (end_pass healthy now q).inbox (end_pass healthy now q).phase
unfolding end_pass rearm
end_pass-IsOnTime limit true now q = earliest-AreCovered q.rows
end_pass-IsOnTime limit false now q = All-always q.rows (λ row. failed-Covers now (time_of row))

pub begin_purge-IsOnTime :
    (limit : ℕ) (healthy : Bool) (now : ℕ) (q : Inbox)
    → IsOnTime limit q (begin_purge healthy now q.rows)
unfolding begin_purge
begin_purge-IsOnTime limit healthy now q = elim (Bool-cases (is_empty (expired now q.rows))) [
  | inl e ↦ rw e tt
  | inr e ↦ rw e tt
]
