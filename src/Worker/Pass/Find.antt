-- ===== src/Worker/Pass/Find.antt =====
-- The row of an id, behind the statements over the rows.
use odoo_cloudflare_email.Prelude.{
  ◌≡◌, refl, ap, Bool, true, some, List, [], ◌∷◌, ◌++◌, All, Bool-cases, inl, inr, if◌then◌else◌,
}
use odoo_cloudflare_email.Text.{Text, text_eq}
use odoo_cloudflare_email.Worker.Inbox.{InboxRow, id_of, find_row, update_where}
use odoo_cloudflare_email.Worker.Inbox.Order.{keep}

pub find_row-All {κ} :
    (Q : InboxRow → Type κ) (id : Text) (rows : List InboxRow) (row : InboxRow)
    → All Q rows
    → find_row id rows ≡ some row
    → Q row
unfolding find_row
find_row-All Q id [] row q e = absurd (cc)
find_row-All Q id (r ∷ rows) row (q, qs) e = elim (Bool-cases (text_eq r.id id)) [
  | inl same ↦ let found : r ≡ row = cc (rw same at e) in rw (← found) q
  | inr other ↦ find_row-All Q id rows row qs (rw other at e)
]

pub find_row-id :
    (id : Text) (rows : List InboxRow) (row : InboxRow)
    → find_row id rows ≡ some row
    → text_eq row.id id ≡ true
unfolding find_row
find_row-id id [] row e = absurd (cc)
find_row-id id (r ∷ rows) row e = elim (Bool-cases (text_eq r.id id)) [
  | inl same ↦ let found : r ≡ row = cc (rw same at e) in rw (← found) same
  | inr other ↦ find_row-id id rows row (rw other at e)
]

pub find_row-append :
    (id : Text) (rows more : List InboxRow) (row : InboxRow)
    → find_row id rows ≡ some row
    → find_row id (rows ++ more) ≡ some row
unfolding find_row
find_row-append id [] more row e = absurd (cc)
find_row-append id (r ∷ rows) more row e = elim (Bool-cases (text_eq r.id id)) [
  | inl same ↦ rw same (rw same at e)
  | inr other ↦ rw other (find_row-append id rows more row (rw other at e))
]

pub find_row-keep :
    (id : Text) (p : InboxRow → Bool) (rows : List InboxRow) (row : InboxRow)
    → find_row id rows ≡ some row
    → p row ≡ true
    → find_row id (keep p rows) ≡ some row
unfolding find_row keep
find_row-keep id p [] row e wanted = absurd (cc)
find_row-keep id p (r ∷ rows) row e wanted = elim (Bool-cases (text_eq r.id id)) [
  | inl same ↦
      let found : r ≡ row = cc (rw same at e) in
      let first : p r ≡ true = rw found wanted in rw (first, same) (ap some found)
  | inr other ↦
      let rest = find_row-keep id p rows row (rw other at e) wanted in
      elim (Bool-cases (p r)) [ inl kept ↦ rw (kept, other) rest | inr dropped ↦ rw dropped rest ]
]

pub find_row-update_where :
    (id : Text) (p : InboxRow → Bool) (change : InboxRow → InboxRow)
    → ((row : InboxRow) → id_of (change row) ≡ id_of row)
    → (rows : List InboxRow) (row : InboxRow) → find_row id rows ≡ some row
    → find_row id (update_where p change rows) ≡ some (if p row then change row else row)
unfolding find_row update_where
find_row-update_where id p change f [] row e = absurd (cc)
find_row-update_where id p change f (r ∷ rows) row e = elim (Bool-cases (text_eq r.id id)) [
  | inl same ↦
      let found : r ≡ row = cc (rw same at e) in
      rw (← found) (elim (Bool-cases (p r)) [
        | inl wanted ↦ rw (wanted, f r, same) refl
        | inr other ↦ rw (other, same) refl
      ])
  | inr differs ↦
      let rest = find_row-update_where id p change f rows row (rw differs at e) in
      elim (Bool-cases (p r)) [
        | inl wanted ↦ rw (wanted, f r, differs) rest
        | inr other ↦ rw (other, differs) rest
      ]
]
