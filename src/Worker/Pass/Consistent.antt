-- ===== src/Worker/Pass/Consistent.antt =====
-- What holds of the queue between any two of its steps.
use odoo_cloudflare_email.Prelude.{
  ℕ, ◌≤◌, ◌<◌, ◌≡◌, inl, inr, Bool, Option, none, some, Bool-cases, arith,
}
use odoo_cloudflare_email.Text.{Text, Bytes, text_eq}
use odoo_cloudflare_email.Text.Equality.{count}
use odoo_cloudflare_email.Json.{Json}
use odoo_cloudflare_email.Worker.Config.{WorkerConfig, delivery_delay_ms}
use odoo_cloudflare_email.Worker.Answer.{Fetched}
use odoo_cloudflare_email.Worker.Inbox.{
  InboxStatus, InboxRow, Inbox, retry, retry_all, requeue_where, is_parked, is_retryable, status_eq,
  delete_where, remove_row,
}
use odoo_cloudflare_email.Worker.Attempt.{Delivery, deliver_row}
use odoo_cloudflare_email.Worker.Pass.{
  time_of, Queue, purge_rows, or_unchanged, Step, enqueued, retried, retried_all, removed, fired,
  attempted, interrupted, attempted_all, searched, purged, purge_failed, ended, Reach, here, next,
}
use odoo_cloudflare_email.Worker.Pass.Statements.{keep-All}
use odoo_cloudflare_email.Worker.Pass.Armed.{Covers, enqueue-AreCovered, requeue_where-AreCovered}
use odoo_cloudflare_email.Worker.Pass.Sound.{
  AreSound, enqueue-AreSound, requeue_where-AreSound, delete_where-AreSound, settle_row-AreSound,
  deliver_row-cases,
}
use odoo_cloudflare_email.Worker.Pass.OnTime.{
  IsOnTime, IsOnTime-passes, begin_pass-IsOnTime, end_pass-rows, end_pass-IsOnTime,
  begin_purge-IsOnTime,
}

pub record IsConsistent (limit : ℕ) (s : Queue) : Type 0 where
  pub rows : AreSound limit s.inbox.rows
  pub on_time : IsOnTime limit s.inbox s.phase

module _ (parse_json : Text → Option Json) (hexdigest : Bytes → Bytes → Text) (version : Text)
    (limit : ℕ) (positive : 0 < limit) where
  requeued-IsConsistent :
      (p : InboxRow → Bool) (now : ℕ) (s : Queue)
      → IsConsistent limit s
      → IsConsistent limit (record s { inbox = (requeue_where p now s.inbox).1 })
  requeued-IsConsistent p now s c = record {
    rows = requeue_where-AreSound limit positive p now s.inbox c.rows;
    on_time =
        IsOnTime-passes limit s.inbox _ s.phase (requeue_where-AreCovered p now s.inbox) c.on_time;
  }

  retry-IsConsistent :
      (id : Text) (now : ℕ) (s : Queue)
      → IsConsistent limit s
      → IsConsistent limit (record s { inbox = (retry id now s.inbox).1 })
  unfolding retry
  retry-IsConsistent id now s c = requeued-IsConsistent (is_parked id) now s c

  retry_all-IsConsistent :
      (status : InboxStatus) (now count : ℕ) (s : Queue) (q : Inbox)
      → retry_all status now s.inbox ≡ some (count, q)
      → IsConsistent limit s
      → IsConsistent limit (record s { inbox = q })
  unfolding retry_all
  retry_all-IsConsistent status now count s q e c = elim (Bool-cases (is_retryable status)) [
    | inr refused ↦ absurd (cc (rw refused at e))
    | inl accepted ↦
        let same : (requeue_where (λ row. status_eq row.status status) now s.inbox).1 ≡ q =
          cc (rw accepted at e) in
        rw (← same) (requeued-IsConsistent (λ row. status_eq row.status status) now s c)
  ]

  -- What is deleted needs no alarm.
  deleted-IsConsistent :
      (p : InboxRow → Bool) (s : Queue)
      → IsConsistent limit s
      → IsConsistent limit (record s { inbox = delete_where p s.inbox })
  unfolding delete_where
  deleted-IsConsistent p s c = record {
    rows = unfold delete_where in delete_where-AreSound limit p s.inbox c.rows;
    on_time =
        IsOnTime-passes limit s.inbox _ s.phase
          (λ failed. keep-All (λ row. Covers s.inbox.alarm failed (time_of row)) _ s.inbox.rows)
          c.on_time;
  }

  attempted-AreSound :
      (fetch : Delivery → Fetched) (object : Option Bytes) (config : WorkerConfig) (row : InboxRow)
      (sent now : ℕ) (q : Inbox)
      → config.max_attempts ≤ limit
      → row.attempts < limit
      → AreSound limit q.rows
      → AreSound limit
          (or_unchanged q
            (deliver_row parse_json hexdigest version fetch config row object sent now q)).rows
  attempted-AreSound fetch object config row sent now q allowed left s =
      elim (deliver_row-cases parse_json hexdigest version fetch config row object sent now q) [
        | inl raised ↦ rw raised s
        | inr (e, one_more, fits, settles) ↦
            rw settles
              (settle_row-AreSound limit config allowed row.id e now q (omega arith) fits s)
      ]

  pub Step-IsConsistent :
      {s t : Queue}
      → Step parse_json hexdigest version limit s t
      → IsConsistent limit s
      → IsConsistent limit t
  Step-IsConsistent {s = s} (enqueued config input now e) c = rw e (record {
    rows = enqueue-AreSound limit positive (delivery_delay_ms config) input now s.inbox c.rows;
    on_time =
        IsOnTime-passes limit s.inbox _ s.phase
          (enqueue-AreCovered (delivery_delay_ms config) input now s.inbox) c.on_time;
  })
  Step-IsConsistent {s = s} (retried id now e) c = rw e (retry-IsConsistent id now s c)
  Step-IsConsistent {s = s} {t = t} (retried_all status now count e same) c =
      let kept = retry_all-IsConsistent status now count s t.inbox e c in
      record { rows = kept.rows; on_time = rw same kept.on_time }
  Step-IsConsistent {s = s} (removed id e) c =
      rw e (unfold remove_row in deleted-IsConsistent (λ row. text_eq row.id id) s c)
  Step-IsConsistent {s = s} (fired last config at now idle_e armed past e) c = rw e (record {
    rows = c.rows;
    on_time = begin_pass-IsOnTime limit config now (record s.inbox { alarm = none }) c.rows.sound;
  })
  Step-IsConsistent {s = s} (attempted fetch object config row rest sent now allowed phase e) c =
      let o = rw phase at c.on_time in
      rw e (record {
        rows = attempted-AreSound fetch object config row sent now s.inbox allowed o.0 c.rows;
        on_time = o.1;
      })
  Step-IsConsistent {s = s} (interrupted config row rest phase e) c =
      rw e (record { rows = c.rows; on_time = (rw phase at c.on_time).1 })
  Step-IsConsistent {s = s} (attempted_all config phase e) c =
      rw e (record { rows = c.rows; on_time = tt })
  Step-IsConsistent {s = s} (searched healthy now phase e) c =
      rw e (record { rows = c.rows; on_time = begin_purge-IsOnTime limit healthy now s.inbox })
  Step-IsConsistent {s = s} (purged healthy taken phase e) c = rw e (record {
    rows = unfold purge_rows in delete_where-AreSound limit _ s.inbox c.rows;
    on_time = tt;
  })
  Step-IsConsistent {s = s} (purge_failed healthy taken phase e) c =
      rw e (record { rows = c.rows; on_time = tt })
  Step-IsConsistent {s = s} (ended healthy now phase e) c = rw e (record {
    rows = rw (end_pass-rows healthy now s.inbox) c.rows;
    on_time = end_pass-IsOnTime limit healthy now s.inbox;
  })

  -- Whatever happens to a consistent queue, it stays consistent, where each configuration that
  -- is used allows at most `limit` attempts, a positive number: each id stands once; exactly
  -- the pending rows have a time for their next attempt, and exactly the delivered ones a time
  -- for their purge; a pending row has an attempt left; a delivered one had an answer from 200
  -- to 299, and a rejected one another answer; an error has at most 200 characters; and
  -- outside a pass the alarm comes no later than any such time, or than a minute after the
  -- last pass, if that failed.
  pub Reach-IsConsistent :
      {s t : Queue}
      → IsConsistent limit s
      → Reach parse_json hexdigest version limit s t
      → IsConsistent limit t
  Reach-IsConsistent c here = c
  Reach-IsConsistent c (next r st) = Step-IsConsistent st (Reach-IsConsistent c r)
