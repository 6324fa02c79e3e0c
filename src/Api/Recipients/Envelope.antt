-- ===== src/Api/Recipients/Envelope.antt =====
-- The index of the envelope: its keys, each once.
use odoo_cloudflare_email.Prelude.{
  ◌≡◌, refl, inl, inr, List, [], ◌∷◌, map, arith, indicator, Bool-cases, All, All-append, ◌||◌,
}
use mathlib.Core.List.{map-append}
use odoo_cloudflare_email.Text.{Text, contains, text_eq}
use odoo_cloudflare_email.Text.Equality.{
  count, count-append, contains-append, text_eq_iff, contains-absorb,
}
use odoo_cloudflare_email.Api.Host.{Host}
use odoo_cloudflare_email.Api.Recipients.{Index, index_keys, setdefault, index_from}

-- Each key stands once, and is its address in lower case.
pub record IsIndex (h : Host) (index : Index) : Type 0 where
  pub once : (k : Text) → count k (index_keys index) ≡ indicator (contains k (index_keys index))
  pub lowered : All (λ e. h.lower e.1 ≡ e.0) index

module _ (h : Host) where
  setdefault-once :
      (key address k : Text) (index : Index)
      → IsIndex h index
      → count k (index_keys (setdefault key address index))
        ≡ indicator (contains k (index_keys (setdefault key address index)))
  unfolding setdefault count contains
  setdefault-once key address k index i = elim (Bool-cases (contains key (index_keys index))) [
    | inl old ↦ rw old (i.once k)
    | inr new ↦ rw new (
        rw map-append (
          rw (count-append, contains-append)
            (ground (arith, i.once k, text_eq_iff key k, i.once key))))
  ]

  setdefault-lowered :
      (key address : Text) (index : Index)
      → h.lower address ≡ key
      → All (λ e. h.lower e.1 ≡ e.0) index
      → All (λ e. h.lower e.1 ≡ e.0) (setdefault key address index)
  unfolding setdefault
  setdefault-lowered key address index e i = elim (Bool-cases (contains key (index_keys index))) [
    | inl old ↦ rw old i
    | inr new ↦ rw new (All-append (λ (e : Text × Text). h.lower e.1 ≡ e.0) index _ i (e, tt))
  ]

  setdefault-IsIndex :
      (address : Text) (index : Index)
      → IsIndex h index
      → IsIndex h (setdefault (h.lower address) address index)
  setdefault-IsIndex address index i = record {
    once = λ k. setdefault-once (h.lower address) address k index i;
    lowered = setdefault-lowered (h.lower address) address index refl i.lowered;
  }

  index_from-IsIndex_acc :
      (index : Index) (list : List Text) → IsIndex h index → IsIndex h (index_from h index list)
  unfolding index_from
  index_from-IsIndex_acc index [] i = i
  index_from-IsIndex_acc index (address ∷ rest) i =
      index_from-IsIndex_acc (setdefault (h.lower address) address index) rest
        (setdefault-IsIndex address index i)

  pub index_from-IsIndex : (list : List Text) → IsIndex h (index_from h [] list)
  unfolding count contains
  index_from-IsIndex list =
      index_from-IsIndex_acc [] list (record { once = λ k. refl; lowered = tt })

  contains-setdefault :
      (key address k : Text) (index : Index)
      → contains k (index_keys (setdefault key address index))
        ≡ (text_eq key k || contains k (index_keys index))
  unfolding setdefault contains
  contains-setdefault key address k index = elim (Bool-cases (contains key (index_keys index))) [
    | inl old ↦ rw old (contains-absorb key k (index_keys index) old)
    | inr new ↦ rw new (rw map-append (rw contains-append (ground arith)))
  ]

  contains-index_from :
      (index : Index) (list : List Text) (k : Text)
      → contains k (index_keys (index_from h index list))
        ≡ (contains k (map h.lower list) || contains k (index_keys index))
  unfolding index_from contains
  contains-index_from index [] k = refl
  contains-index_from index (address ∷ rest) k = ground (
    arith,
    contains-index_from (setdefault (h.lower address) address index) rest k,
    contains-setdefault (h.lower address) address k index,
  )

  -- The index holds the lower-cased addresses of the list, and nothing else.
  pub contains-index :
      (list : List Text) (k : Text)
      → contains k (index_keys (index_from h [] list)) ≡ contains k (map h.lower list)
  unfolding contains
  contains-index list k = ground (arith, contains-index_from [] list k)
