-- ===== src/Worker/Pass/Sound.antt =====
-- The operations keep the ids of the queue apart and its rows sound.
use odoo_cloudflare_email.Prelude.{
  ℕ, ◌+◌, ◌≤◌, ◌<◌, ◌≡◌, refl, ap, inl, inr, ◌⊎◌, Bool, true, false, Option, none, some, List, [],
  ◌∷◌, map, All, All-append, Bool-cases, Option-cases, arith, ◌==◌, length,
}
use mathlib.Core.List.{map-append}
use odoo_cloudflare_email.Text.{Text, text_eq, Bytes, contains}
use odoo_cloudflare_email.Text.Equality.{count, count-append, count_of_absent, text_eq→eq}
use odoo_cloudflare_email.Json.{Json}
use odoo_cloudflare_email.Worker.Backoff.{classify_status}
use odoo_cloudflare_email.Worker.Config.{WorkerConfig}
use odoo_cloudflare_email.Worker.Answer.{Fetched, unreachable, answered}
use odoo_cloudflare_email.Worker.Inbox.{
  update_where, EnqueueInput, InboxRow, Inbox, id_of, row_of, enqueue, requeue, requeue_where,
  arm_no_later_than, delete_where,
}
use odoo_cloudflare_email.Worker.Inbox.Order.{keep}
use odoo_cloudflare_email.Worker.Attempt.{
  Delivery, Ending, status_of, settled, next_attempt, outcome_of, settle_row, missing_ending,
  ending_of, delivery_of, deliver_row,
}
use odoo_cloudflare_email.Worker.Pass.{or_unchanged}
use odoo_cloudflare_email.Worker.Pass.Rows.{
  IsSound, is_answered, row_of-IsSound, requeue-IsSound, settled-IsSound,
}
use odoo_cloudflare_email.Worker.Pass.Statements.{
  update_where-All, map-update_where, keep-All, count-keep,
}

-- Each id stands once, and each row is sound.
pub record AreSound (limit : ℕ) (rows : List InboxRow) : Type 0 where
  pub once : (id : Text) → count id (map id_of rows) ≤ 1
  pub sound : All (IsSound limit) rows

one : (id new : Text) → count id (new ∷ []) ≤ 1
unfolding count
one id new = elim (Bool-cases (text_eq new id)) [
  | inl e ↦ rw e (omega arith)
  | inr e ↦ rw e (omega arith)
]

-- A new id makes none of the others stand twice.
added :
    (new id : Text) (rows : List InboxRow)
    → contains new (map id_of rows) ≡ false
    → count id (map id_of rows) ≤ 1
    → count id (map id_of rows) + count id (new ∷ []) ≤ 1
unfolding count
added new id rows absent few = elim (Bool-cases (text_eq new id)) [
  | inl same ↦
      let e = text_eq→eq new id same in
      omega (
        arith,
        count_of_absent new (map id_of rows) absent,
        ap (λ t. count t (map id_of rows)) e,
        one id new,
      )
  | inr other ↦ rw other (omega arith)
]

pub arm_no_later_than-rows : (at : ℕ) (q : Inbox) → (arm_no_later_than at q).rows ≡ q.rows
unfolding arm_no_later_than
arm_no_later_than-rows at q = ground arith

module _ (limit : ℕ) (positive : 0 < limit) where
  pub enqueue-AreSound :
      (delay : ℕ) (input : EnqueueInput) (now : ℕ) (q : Inbox)
      → AreSound limit q.rows
      → AreSound limit (enqueue delay input now q).1.rows
  unfolding enqueue
  enqueue-AreSound delay input now q s = elim (Bool-cases (contains input.id (map id_of q.rows))) [
    | inl present ↦ rw present s
    | inr new ↦ rw new (
        rw (arm_no_later_than-rows (now + delay) _) (record {
          once = λ id. rw map-append (
              rw (count-append id (map id_of q.rows) (input.id ∷ []))
                (added input.id id q.rows new (s.once id)));
          sound =
              All-append (IsSound limit) q.rows (row_of input (now + delay) ∷ []) s.sound
                (row_of-IsSound limit input (now + delay) positive, tt);
        }))
  ]

  pub requeue_where-AreSound :
      (p : InboxRow → Bool) (now : ℕ) (q : Inbox)
      → AreSound limit q.rows
      → AreSound limit (requeue_where p now q).1.rows
  unfolding requeue_where requeue
  requeue_where-AreSound p now q s =
      let kept : AreSound limit (update_where p (requeue now) q.rows) = record {
        once = λ id. rw (map-update_where p (requeue now) (λ row. refl) q.rows) (s.once id);
        sound =
            update_where-All (IsSound limit) (IsSound limit) p (requeue now)
              (λ row. requeue-IsSound limit now row positive) (λ row r. r) q.rows s.sound;
      } in
      elim (Bool-cases (length (keep p q.rows) == 0)) [
        | inl nothing ↦ rw nothing kept
        | inr some_rows ↦ rw some_rows (rw (arm_no_later_than-rows now _) kept)
      ]

pub delete_where-AreSound :
    (limit : ℕ) (p : InboxRow → Bool) (q : Inbox)
    → AreSound limit q.rows
    → AreSound limit (delete_where p q).rows
unfolding delete_where
delete_where-AreSound limit p q s = record {
  once = λ id. omega (arith, count-keep id _ q.rows, s.once id);
  sound = keep-All (IsSound limit) _ q.rows s.sound;
}

module _ (limit : ℕ) (config : WorkerConfig) (allowed : config.max_attempts ≤ limit) where
  pub settle_row-AreSound :
      (id : Text) (e : Ending) (now : ℕ) (q : Inbox)
      → e.attempt ≤ limit
      → is_answered (status_of e.verdict) e.status ≡ true
      → AreSound limit q.rows
      → AreSound limit (or_unchanged q (settle_row config id e now q)).rows
  unfolding settle_row settled
  settle_row-AreSound id e now q within fits s =
      elim (Option-cases
        (next_attempt config e.attempt (outcome_of config e.attempt e.verdict) now)) [
          | inl raised ↦ rw raised s
          | inr (at, known) ↦ rw known (record {
            once = λ x.
                rw (map-update_where _ (settled config e at now) (λ row. refl) q.rows) (s.once x);
            sound =
                update_where-All (IsSound limit) (IsSound limit) _ (settled config e at now)
                  (λ row _. settled-IsSound limit config e allowed within fits at now row known)
                  (λ row r. r) q.rows s.sound;
          })
        ]

ending_of-attempt :
    (parse_json : Text → Option Json) (attempt : ℕ) (f : Fetched)
    → (ending_of parse_json attempt f).attempt ≡ attempt
unfolding ending_of
ending_of-attempt parse_json attempt (unreachable failure) = refl
ending_of-attempt parse_json attempt (answered a) = refl

classify_status-answered :
    (status : ℕ) → is_answered (status_of (classify_status status)) (some status) ≡ true
unfolding classify_status
classify_status-answered status = ground arith

ending_of-answered :
    (parse_json : Text → Option Json) (attempt : ℕ) (f : Fetched)
    → let e = ending_of parse_json attempt f in is_answered (status_of e.verdict) e.status ≡ true
unfolding ending_of
ending_of-answered parse_json attempt (unreachable failure) = refl
ending_of-answered parse_json attempt (answered a) = classify_status-answered a.status

-- An attempt settles its own row, as one attempt more, or raises.
pub deliver_row-cases :
    (parse_json : Text → Option Json) (hexdigest : Bytes → Bytes → Text) (version : Text)
    (fetch : Delivery → Fetched) (config : WorkerConfig) (row : InboxRow) (object : Option Bytes)
    (sent now : ℕ) (q : Inbox)
    → let r = deliver_row parse_json hexdigest version fetch config row object sent now q in
      (r ≡ none)
      ⊎ ((e : Ending) × (e.attempt ≡ row.attempts + 1)
          × (is_answered (status_of e.verdict) e.status ≡ true)
          × (r ≡ settle_row config row.id e now q))
unfolding deliver_row missing_ending
deliver_row-cases parse_json hexdigest version fetch config row none sent now q =
    inr (missing_ending (row.attempts + 1), refl, refl, refl)
deliver_row-cases parse_json hexdigest version fetch config row (some body) sent now q =
    elim (Option-cases (delivery_of hexdigest version config row body sent)) [
      | inl raised ↦ inl (rw raised refl)
      | inr (delivery, made) ↦ inr (
        ending_of parse_json (row.attempts + 1) (fetch delivery),
        ending_of-attempt parse_json (row.attempts + 1) (fetch delivery),
        ending_of-answered parse_json (row.attempts + 1) (fetch delivery),
        rw made refl,
      )
    ]
