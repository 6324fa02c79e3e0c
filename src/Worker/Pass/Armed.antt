-- ===== src/Worker/Pass/Armed.antt =====
-- The alarm and the times of the rows: how the operations keep the alarm from missing one.
use odoo_cloudflare_email.Prelude.{
  ℕ, ◌+◌, ◌≤◌, ◌≡◌, refl, ◌⊎◌, inl, inr, Bool, Option, none, some, List, [], ◌∷◌, map, All,
  All-append, All-weaken, Bool-cases, arith, ltb, ◌==◌, length,
}
use odoo_cloudflare_email.Text.{contains}
use odoo_cloudflare_email.Worker.Inbox.{
  EnqueueInput, id_of, InboxRow, Inbox, arm_no_later_than, row_of, enqueue, requeue, requeue_where,
}
use odoo_cloudflare_email.Worker.Inbox.Order.{keep}
use odoo_cloudflare_email.Worker.Pass.{alarm_retry_ms, time_of, earlier, earliest}
use odoo_cloudflare_email.Worker.Pass.Statements.{update_where-All, update_where_none}

-- An alarm that comes by a time, where the last pass may have failed at another: then the alarm may
-- come up to a minute behind that one instead.
abbrev pub Covers : Option ℕ → Option ℕ → Option ℕ → Type 0
Covers alarm failed none = Unit
Covers none failed (some time) = ⊥
Covers (some at) none (some time) = at ≤ time
Covers (some at) (some failed) (some time) = (at ≤ time) ⊎ (at ≤ failed + alarm_retry_ms)

abbrev pub AreCovered : Option ℕ → Option ℕ → List InboxRow → Type 0
AreCovered alarm failed rows = All (λ row. Covers alarm failed (time_of row)) rows

-- An alarm that comes no later than another.
IsSooner : Option ℕ → Option ℕ → Type 0
IsSooner a none = Unit
IsSooner none (some at) = ⊥
IsSooner (some a) (some at) = a ≤ at

IsSooner-Covers :
    (a b failed time : Option ℕ) → IsSooner a b → Covers b failed time → Covers a failed time
unfolding IsSooner
IsSooner-Covers a b failed none s c = tt
IsSooner-Covers a none failed (some time) s c = absurd c
IsSooner-Covers none (some b) failed (some time) s c = absurd s
IsSooner-Covers (some a) (some b) none (some time) s c = omega arith
IsSooner-Covers (some a) (some b) (some failed) (some time) s (inl c) = inl (omega arith)
IsSooner-Covers (some a) (some b) (some failed) (some time) s (inr c) = inr (omega arith)

IsSooner-AreCovered :
    (a b failed : Option ℕ) (rows : List InboxRow)
    → IsSooner a b
    → AreCovered b failed rows
    → AreCovered a failed rows
IsSooner-AreCovered a b failed rows s =
    All-weaken rows (λ row. IsSooner-Covers a b failed (time_of row) s)

exact-Covers : (a failed : Option ℕ) (at : ℕ) → IsSooner a (some at) → Covers a failed (some at)
unfolding IsSooner
exact-Covers none failed at s = absurd s
exact-Covers (some a) none at s = s
exact-Covers (some a) (some failed) at s = inl s

module _ (at : ℕ) (q : Inbox) where
  arm_no_later_than-IsSooner :
      (alarm : Option ℕ)
      → q.alarm ≡ alarm
      → IsSooner (arm_no_later_than at q).alarm alarm
        × IsSooner (arm_no_later_than at q).alarm (some at)
        × ((arm_no_later_than at q).rows ≡ q.rows)
  unfolding arm_no_later_than IsSooner
  arm_no_later_than-IsSooner none e = rw e (tt, omega arith, refl)
  arm_no_later_than-IsSooner (some current) e = elim (Bool-cases (ltb at current)) [
    | inl sooner ↦ rw (e, sooner) (ground arith)
    | inr later ↦ rw (e, later) (ground arith)
  ]

-- A row that the old alarm covers, or whose time is the one that the alarm is set for.
IsDueAt : ℕ → Option ℕ → Option ℕ → InboxRow → Type 0
IsDueAt at alarm failed row = Covers alarm failed (time_of row) ⊎ (time_of row ≡ some at)

arm_no_later_than-AreCovered :
    (at : ℕ) (q : Inbox) (failed : Option ℕ)
    → All (IsDueAt at q.alarm failed) q.rows
    → AreCovered (arm_no_later_than at q).alarm failed (arm_no_later_than at q).rows
unfolding IsDueAt
arm_no_later_than-AreCovered at q failed due =
    let (sooner, exact, same) = arm_no_later_than-IsSooner at q q.alarm refl in
    rw same (
      All-weaken q.rows
        (λ row d. elim d [
          | inl covered ↦
              IsSooner-Covers (arm_no_later_than at q).alarm q.alarm failed (time_of row) sooner
                covered
          | inr e ↦ rw e (exact-Covers (arm_no_later_than at q).alarm failed at exact)
        ])
        due)

pub enqueue-AreCovered :
    (delay : ℕ) (input : EnqueueInput) (now : ℕ) (q : Inbox) (failed : Option ℕ)
    → AreCovered q.alarm failed q.rows
    → AreCovered (enqueue delay input now q).1.alarm failed (enqueue delay input now q).1.rows
unfolding enqueue IsDueAt
enqueue-AreCovered delay input now q failed c =
    elim (Bool-cases (contains input.id (map id_of q.rows))) [
      | inl present ↦ rw present c
      | inr new ↦ rw new (
          arm_no_later_than-AreCovered (now + delay) _ failed (
            All-append (IsDueAt (now + delay) q.alarm failed) q.rows
              (row_of input (now + delay) ∷ []) (All-weaken q.rows (λ row. inl) c)
              (unfold row_of in (inr refl, tt))))
    ]

pub requeue_where-AreCovered :
    (p : InboxRow → Bool) (now : ℕ) (q : Inbox) (failed : Option ℕ)
    → AreCovered q.alarm failed q.rows
    → AreCovered (requeue_where p now q).1.alarm failed (requeue_where p now q).1.rows
unfolding requeue_where IsDueAt requeue
requeue_where-AreCovered p now q failed c = elim (Bool-cases (length (keep p q.rows) == 0)) [
  | inl e ↦ rw e (rw (update_where_none p (requeue now) q.rows e) c)
  | inr e ↦ rw e (
      arm_no_later_than-AreCovered now _ failed (
        update_where-All (λ row. Covers q.alarm failed (time_of row)) (IsDueAt now q.alarm failed) p
          (requeue now) (λ row _. inr refl) (λ row. inl) q.rows c))
]

-- The next alarm comes with the first of all times.
earlier-IsSooner : (a b : Option ℕ) → IsSooner (earlier a b) a × IsSooner (earlier a b) b
unfolding IsSooner
earlier-IsSooner none none = (tt, tt)
earlier-IsSooner none (some b) = (tt, omega arith)
earlier-IsSooner (some a) none = (omega arith, tt)
earlier-IsSooner (some a) (some b) = (ground arith, ground arith)

Covers-self : (a failed time : Option ℕ) → IsSooner a time → Covers a failed time
unfolding IsSooner
Covers-self a failed none s = tt
Covers-self a failed (some time) s = exact-Covers a failed time s

pub earliest-AreCovered : (rows : List InboxRow) → AreCovered (earliest rows) none rows
unfolding earliest
earliest-AreCovered [] = tt
earliest-AreCovered (row ∷ rows) =
    let (first, rest) = earlier-IsSooner (time_of row) (earliest rows) in
    (
      Covers-self _ none (time_of row) first,
      IsSooner-AreCovered _ (earliest rows) none rows rest (earliest-AreCovered rows),
    )
