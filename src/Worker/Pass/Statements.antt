-- ===== src/Worker/Pass/Statements.antt =====
-- What `UPDATE` and `DELETE` keep of the rows.
use odoo_cloudflare_email.Prelude.{
  ◌≤◌, ◌≡◌, refl, ap, ap₂, inl, inr, Bool, true, List, [], ◌∷◌, map, length, All, Bool-cases, arith,
  ◌==◌,
}
use odoo_cloudflare_email.Text.{Text}
use odoo_cloudflare_email.Text.Equality.{count}
use odoo_cloudflare_email.Worker.Inbox.{InboxRow, update_where, id_of}
use odoo_cloudflare_email.Worker.Inbox.Order.{keep}

pub update_where-All {κ μ} :
    (Q : InboxRow → Type κ) (R : InboxRow → Type μ) (p : InboxRow → Bool)
    (change : InboxRow → InboxRow)
    → ((row : InboxRow) → Q row → R (change row))
    → ((row : InboxRow) → Q row → R row)
    → (rows : List InboxRow) → All Q rows
    → All R (update_where p change rows)
unfolding update_where
update_where-All Q R p change f g [] q = tt
update_where-All Q R p change f g (row ∷ rows) (q, qs) = elim (Bool-cases (p row)) [
  | inl e ↦ rw e (f row q, update_where-All Q R p change f g rows qs)
  | inr e ↦ rw e (g row q, update_where-All Q R p change f g rows qs)
]

pub map-update_where :
    (p : InboxRow → Bool) (change : InboxRow → InboxRow)
    → ((row : InboxRow) → id_of (change row) ≡ id_of row)
    → (rows : List InboxRow) → map id_of (update_where p change rows) ≡ map id_of rows
unfolding update_where
map-update_where p change f [] = refl
map-update_where p change f (row ∷ rows) = elim (Bool-cases (p row)) [
  | inl e ↦
      rw e (ap₂ (λ (x : Text) (xs : List Text). x ∷ xs) (f row) (map-update_where p change f rows))
  | inr e ↦ rw e (ap (λ (xs : List Text). row.id ∷ xs) (map-update_where p change f rows))
]

pub keep-All {κ} :
    (Q : InboxRow → Type κ) (p : InboxRow → Bool) (rows : List InboxRow)
    → All Q rows
    → All Q (keep p rows)
unfolding keep
keep-All Q p [] q = tt
keep-All Q p (row ∷ rows) (q, qs) = elim (Bool-cases (p row)) [
  | inl e ↦ rw e (q, keep-All Q p rows qs)
  | inr e ↦ rw e (keep-All Q p rows qs)
]

pub keep-holds {κ} :
    (Q : InboxRow → Type κ) (p : InboxRow → Bool) (rows : List InboxRow)
    → All Q rows
    → All (λ row. (p row ≡ true) × Q row) (keep p rows)
unfolding keep
keep-holds Q p [] q = tt
keep-holds Q p (row ∷ rows) (q, qs) = elim (Bool-cases (p row)) [
  | inl e ↦ rw e ((e, q), keep-holds Q p rows qs)
  | inr e ↦ rw e (keep-holds Q p rows qs)
]

pub count-keep :
    (x : Text) (p : InboxRow → Bool) (rows : List InboxRow)
    → count x (map id_of (keep p rows)) ≤ count x (map id_of rows)
unfolding keep count
count-keep x p [] = omega arith
count-keep x p (row ∷ rows) = elim (Bool-cases (p row)) [
  | inl e ↦ rw e (omega (arith, count-keep x p rows))
  | inr e ↦ rw e (omega (arith, count-keep x p rows))
]

pub update_where_none :
    (p : InboxRow → Bool) (change : InboxRow → InboxRow) (rows : List InboxRow)
    → (length (keep p rows) == 0) ≡ true
    → update_where p change rows ≡ rows
unfolding update_where keep
update_where_none p change [] e = refl
update_where_none p change (row ∷ rows) e = elim (Bool-cases (p row)) [
  | inl found ↦ absurd (ground (arith, found))
  | inr other ↦
      rw other
        (ap (λ (l : List InboxRow). row ∷ l) (update_where_none p change rows (rw other at e)))
]
