-- ===== src/Api/Recipients/Partition.antt =====
-- Each recipient of the envelope stands once in the request.
use odoo_cloudflare_email.Prelude.{
  ◌≡◌, refl, ◌+◌, ◌≤◌, List, [], ◌∷◌, ◌++◌, map, arith, indicator, All, if◌then◌else◌, ◌||◌, true,
  ap, ◌∙◌, is_empty,
}
use mathlib.Core.List.{map-append}
use odoo_cloudflare_email.Text.{Text, contains, codes}
use odoo_cloudflare_email.Text.Equality.{count, count-append, text_eq_iff}
use odoo_cloudflare_email.Errors.{ok}
use odoo_cloudflare_email.Api.Host.{Host}
use odoo_cloudflare_email.Api.Mime.{Headers, header, or_empty}
use odoo_cloudflare_email.Api.Recipients.{
  Address, address_of, Index, index_keys, index_from, take_pairs, take, hidden, Recipients, promote,
  total, check_total, classify, split_recipients, max_recipients,
}
use odoo_cloudflare_email.Api.Recipients.Envelope.{IsIndex, index_from-IsIndex, contains-index}

pub address-address_of : (name address : Text) → (address_of (name, address)).address ≡ address
unfolding address_of
address-address_of name address = ground arith

module _ (h : Host) where
  -- The lower-cased addresses of some entries of the request.
  abbrev pub entry_keys : List Address → List Text
  entry_keys = map (λ a. h.lower a.address)

  take_pairs-count :
      (index : Index) (pairs : List (Text × Text)) (seen : List Text) (k : Text)
      → count k (entry_keys (take_pairs h index pairs seen).0) + indicator (contains k seen)
        ≡ indicator (contains k (take_pairs h index pairs seen).1)
  unfolding take_pairs count contains
  take_pairs-count index [] seen k = omega arith
  take_pairs-count index ((name, address) ∷ rest) seen k = ground (
    arith,
    take_pairs-count index rest (h.lower address ∷ seen) k,
    take_pairs-count index rest seen k,
    address-address_of name address,
    text_eq_iff (h.lower address) k,
  )

  -- What is marked as seen was seen before, or is in the envelope.
  take_pairs-known :
      (index : Index) (pairs : List (Text × Text)) (seen : List Text) (k : Text)
      → contains k (take_pairs h index pairs seen).1 ≡ true
      → (contains k seen || contains k (index_keys index)) ≡ true
  unfolding take_pairs contains
  take_pairs-known index [] seen k e = ground arith
  take_pairs-known index ((name, address) ∷ rest) seen k e = ground (
    arith,
    take_pairs-known index rest (h.lower address ∷ seen) k,
    take_pairs-known index rest seen k,
    text_eq_iff (h.lower address) k,
  )

  hidden-count :
      (index : Index) (seen : List Text) (k : Text)
      → All (λ e. h.lower e.1 ≡ e.0) index
      → count k (entry_keys (hidden index seen))
        ≡ (if contains k seen then 0 else count k (index_keys index))
  unfolding hidden count
  hidden-count [] seen k i = ground arith
  hidden-count ((key, address) ∷ index) seen k (low, i) =
      ground
        (arith, hidden-count index seen k i, address-address_of [] address, low, text_eq_iff key k)

  -- All the entries of the request, To first.
  abbrev pub entries : Recipients → List Address
  entries r = r.to ++ (r.cc ++ r.bcc)

  count-entries :
      (r : Recipients) (k : Text)
      → count k (entry_keys (entries r))
        ≡ count k (entry_keys r.to) + count k (entry_keys r.cc) + count k (entry_keys r.bcc)
  count-entries r k = rw (map-append, map-append) (rw (count-append, count-append) (omega arith))

  count_of_is_empty :
      (xs : List Address) (k : Text) → is_empty xs ≡ true → count k (entry_keys xs) ≡ 0
  unfolding count
  count_of_is_empty [] k e = refl
  count_of_is_empty (x ∷ xs) k e = cc

  promote-count :
      (r : Recipients) (k : Text)
      → count k (entry_keys (entries (promote r))) ≡ count k (entry_keys (entries r))
  unfolding promote count
  promote-count r k =
      rw (count-entries r k, count-entries (promote r) k) (ground (arith, count_of_is_empty r.to k))

  -- The entries of the request, by key: one for each key of the index.
  classify-count :
      (message : Headers) (index : Index) (k : Text)
      → IsIndex h index
      → count k (entry_keys (entries (classify h message index)))
        ≡ indicator (contains k (index_keys index))
  unfolding classify take contains
  classify-count message index k i =
      let to_pairs = h.email_split_tuples (or_empty (header h (codes "To") message)) in
      let cc_pairs = h.email_split_tuples (or_empty (header h (codes "Cc") message)) in
      let seen = (take_pairs h index to_pairs []).1 in
      let seen' = (take_pairs h index cc_pairs seen).1 in
      rw (promote-count _ k, count-entries _ k)
        (ground (
          arith,
          take_pairs-count index to_pairs [] k,
          take_pairs-count index cc_pairs seen k,
          take_pairs-known index to_pairs [] k,
          take_pairs-known index cc_pairs seen k,
          hidden-count index seen' k i.lowered,
          i.once k,
        ))

  -- What a successful split guarantees: every address of the envelope has one entry and no other
  -- address has any, whatever the case; there are between 1 and 50 entries.
  pub record IsPartition (list : List Text) (r : Recipients) : Type 0 where
    pub each_once :
        (k : Text) → count k (entry_keys (entries r)) ≡ indicator (contains k (map h.lower list))
    pub some_entry : 1 ≤ total r
    pub within : total r ≤ max_recipients

  -- A successful split of the recipients puts every address of the envelope, compared in lower
  -- case, into exactly one entry of To, Cc and Bcc together, puts no other address there, and
  -- returns between 1 and 50 entries.
  pub split_recipients-IsPartition :
      (message : Headers) (list : List Text) (r : Recipients)
      → split_recipients h message list ≡ ok r
      → IsPartition list r
  unfolding split_recipients check_total
  split_recipients-IsPartition message list r e =
      let index = index_from h [] list in
      let found : classify h message index ≡ r = ground arith in
      record {
        each_once = λ k. rw (← found) (
            classify-count message index k (index_from-IsIndex h list)
            ∙ ap indicator (contains-index h list k));
        some_entry = ground arith;
        within = ground arith;
      }
