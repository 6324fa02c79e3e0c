-- ===== src/Worker/Pass/Rows.antt =====
-- What holds of each row of the queue, and how the statements of the code keep it.
use odoo_cloudflare_email.Prelude.{
  ℕ, zero, suc, ◌≤◌, ◌<◌, ◌≡◌, ◌≢◌, refl, inl, inr, Bool, true, false, ◌&&◌, ◌||◌, ltb, Option,
  none, some, [], ◌∷◌, length, Bool-cases, Option-cases, arith, leb,
}
use odoo_cloudflare_email.Text.{Text}
use odoo_cloudflare_email.Api.Mime.{or_empty}
use odoo_cloudflare_email.Worker.Backoff.{Verdict, backoff_ms, delivered, retry, rejected, dead}
use odoo_cloudflare_email.Worker.Strings.{slice}
use odoo_cloudflare_email.Worker.Config.{WorkerConfig}
use odoo_cloudflare_email.Worker.Answer.{max_error_chars}
use odoo_cloudflare_email.Worker.Inbox
use odoo_cloudflare_email.Worker.Inbox.{
  InboxStatus, EnqueueInput, InboxRow, Inbox, row_of, requeue, update_where, id_of,
}
use odoo_cloudflare_email.Worker.Attempt.{Ending, status_of, outcome_of, next_attempt, settled}

-- Which times a row with a status has: a pending one has its next attempt, a delivered one its purge.
abbrev pub is_timed : InboxStatus → Option ℕ → Option ℕ → Bool
is_timed Inbox.pending (some at) none = true
is_timed Inbox.delivered none (some at) = true
is_timed Inbox.rejected none none = true
is_timed Inbox.dead none none = true
is_timed _ _ _ = false

-- Which answer of Odoo a row with a status has: 2xx if it is delivered, and another one if it is
-- rejected.
abbrev pub is_answered : InboxStatus → Option ℕ → Bool
is_answered Inbox.delivered none = false
is_answered Inbox.delivered (some code) = leb 200 code && leb code 299
is_answered Inbox.rejected none = false
is_answered Inbox.rejected (some code) = ltb code 200 || ltb 299 code
is_answered _ _ = true

pub record IsSound (limit : ℕ) (row : InboxRow) : Type 0 where
  pub timed : is_timed row.status row.next_attempt_at row.purge_at ≡ true
  pub counted : row.attempts ≤ limit
  pub left : row.status ≡ Inbox.pending → row.attempts < limit
  pub answered : is_answered row.status row.last_status ≡ true
  pub short : length (or_empty row.last_error) ≤ max_error_chars

pub row_of-IsSound :
    (limit : ℕ) (input : EnqueueInput) (at : ℕ) → 0 < limit → IsSound limit (row_of input at)
unfolding row_of
row_of-IsSound limit input at h = record {
  timed = refl;
  counted = omega arith;
  left = λ _. h;
  answered = refl;
  short = omega arith;
}

pub requeue-IsSound :
    (limit now : ℕ) (row : InboxRow)
    → 0 < limit
    → IsSound limit row
    → IsSound limit (requeue now row)
unfolding requeue
requeue-IsSound limit now row h s = record {
  timed = refl;
  counted = omega arith;
  left = λ _. h;
  answered = refl;
  short = s.short;
}

length-slice : (n : ℕ) (s : Text) → length (slice n s) ≤ n
unfolding slice
length-slice zero s = omega arith
length-slice (suc n) [] = omega arith
length-slice (suc zero) (c ∷ s) = elim (Bool-cases (leb 0x10000 c)) [
  | inl e ↦ rw e (omega arith)
  | inr e ↦ rw e (omega arith)
]
length-slice (suc (suc n)) (c ∷ s) = elim (Bool-cases (leb 0x10000 c)) [
  | inl e ↦ rw (e, slice) (omega (arith, length-slice n s))
  | inr e ↦ rw (e, slice) (omega (arith, length-slice (suc n) s))
]

-- A verdict that is still a retry leaves an attempt.
outcome_of-eq-retry :
    (config : WorkerConfig) (attempt : ℕ) (verdict : Verdict)
    → outcome_of config attempt verdict ≡ retry
    → attempt < config.max_attempts
unfolding outcome_of
outcome_of-eq-retry config attempt delivered e = cc
outcome_of-eq-retry config attempt retry e = ground arith
outcome_of-eq-retry config attempt rejected e = cc
outcome_of-eq-retry config attempt dead e = cc

outcome_of-answered :
    (config : WorkerConfig) (attempt : ℕ) (verdict : Verdict) (status : Option ℕ)
    → is_answered (status_of verdict) status ≡ true
    → is_answered (status_of (outcome_of config attempt verdict)) status ≡ true
unfolding outcome_of
outcome_of-answered config attempt delivered status h = h
outcome_of-answered config attempt retry status h = ground arith
outcome_of-answered config attempt rejected status h = h
outcome_of-answered config attempt dead status h = h

-- The cut of an error, and the values that settle an attempt.
module _ (limit : ℕ) (config : WorkerConfig) (e : Ending) (allowed : config.max_attempts ≤ limit)
    (within : e.attempt ≤ limit) (fits : is_answered (status_of e.verdict) e.status ≡ true) where
  retry-has_time : (now : ℕ) → next_attempt config e.attempt retry now ≢ some none
  unfolding next_attempt
  retry-has_time now n = elim (Option-cases (backoff_ms config.backoff_seconds e.attempt)) [
    | inl failed ↦ cc (rw failed at n)
    | inr (wait, known) ↦ cc (rw known at n)
  ]

  settled-timed :
      (verdict : Verdict) (next : Option ℕ) (now : ℕ)
      → outcome_of config e.attempt e.verdict ≡ verdict
      → next_attempt config e.attempt verdict now ≡ some next
      → (row : InboxRow)
      → is_timed
          (settled config e next now row).status
          next
          (settled config e next now row).purge_at
        ≡ true
  unfolding settled next_attempt
  settled-timed delivered none now o n row = rw o refl
  settled-timed delivered (some at) now o n row = cc
  settled-timed retry none now o n row = absurd (retry-has_time now n)
  settled-timed retry (some at) now o n row = rw o refl
  settled-timed rejected none now o n row = rw o refl
  settled-timed rejected (some at) now o n row = cc
  settled-timed dead none now o n row = rw o refl
  settled-timed dead (some at) now o n row = cc

  settled-left :
      (verdict : Verdict) (next : Option ℕ) (now : ℕ)
      → outcome_of config e.attempt e.verdict ≡ verdict
      → (row : InboxRow) → (settled config e next now row).status ≡ Inbox.pending
      → e.attempt < limit
  unfolding settled
  settled-left delivered next now o row p = cc (rw o at p)
  settled-left retry next now o row p =
      omega (arith, outcome_of-eq-retry config e.attempt e.verdict o)
  settled-left rejected next now o row p = cc (rw o at p)
  settled-left dead next now o row p = cc (rw o at p)

  settled-short :
      (error : Option Text) (next : Option ℕ) (now : ℕ) (row : InboxRow)
      → e.error ≡ error
      → length (or_empty (settled config e next now row).last_error) ≤ max_error_chars
  unfolding settled
  settled-short none next now row same = rw same (omega arith)
  settled-short (some text) next now row same = rw same (length-slice max_error_chars text)

  pub settled-IsSound :
      (next : Option ℕ) (now : ℕ) (row : InboxRow)
      → next_attempt config e.attempt (outcome_of config e.attempt e.verdict) now ≡ some next
      → IsSound limit (settled config e next now row)
  unfolding settled
  settled-IsSound next now row n = record {
    timed = settled-timed _ next now refl n row;
    counted = within;
    left = settled-left _ next now refl row;
    answered = outcome_of-answered config e.attempt e.verdict e.status fits;
    short = settled-short _ next now row refl;
  }
