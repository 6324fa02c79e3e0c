-- ===== src/Api/Recipients/Visible.antt =====
-- Who can see whom: where the entries of To and Cc come from.
use odoo_cloudflare_email.Prelude.{
  ◌≡◌, refl, ◌⊎◌, inl, inr, true, false, not, ◌&&◌, none, List, [], ◌∷◌, map, All, Bool-cases, ◌==◌,
  length, arith,
}
use odoo_cloudflare_email.Text.{Text, contains, codes}
use odoo_cloudflare_email.Text.Equality.{text_eq_refl}
use odoo_cloudflare_email.Errors.{ok}
use odoo_cloudflare_email.Api.Host.{Host}
use odoo_cloudflare_email.Api.Mime.{Headers, header, or_empty}
use odoo_cloudflare_email.Api.Recipients.{
  Address, address_of, Index, index_keys, take_pairs, take, hidden, Recipients, promote,
  check_total, classify, split_recipients, index_from,
}
use odoo_cloudflare_email.Api.Recipients.Partition.{address-address_of}

-- The addresses in some parsed pairs.
abbrev pub addresses : List (Text × Text) → List Text
addresses = map (λ p. p.1)

abbrev pub AllIn : List Text → List Address → Type 0
AllIn given entries = All (λ a. contains a.address given ≡ true) entries

AllIn-cons :
    (t : Text) (given : List Text) (entries : List Address)
    → AllIn given entries
    → AllIn (t ∷ given) entries
unfolding contains
AllIn-cons t given [] p = tt
AllIn-cons t given (a ∷ entries) (pa, p) = (ground arith, AllIn-cons t given entries p)

-- Entries that have no display name.
abbrev pub AllNameless : List Address → Type 0
AllNameless entries = All (λ a. a.name ≡ none) entries

hidden-AllNameless : (index : Index) (seen : List Text) → AllNameless (hidden index seen)
unfolding hidden address_of
hidden-AllNameless [] seen = tt
hidden-AllNameless ((key, address) ∷ index) seen = elim (Bool-cases (contains key seen)) [
  | inl e ↦ rw e (hidden-AllNameless index seen)
  | inr e ↦ rw e (refl, hidden-AllNameless index seen)
]

module _ (h : Host) where
  take_pairs-AllIn :
      (index : Index) (pairs : List (Text × Text)) (seen : List Text)
      → AllIn (addresses pairs) (take_pairs h index pairs seen).0
  unfolding take_pairs contains
  take_pairs-AllIn index [] seen = tt
  take_pairs-AllIn index ((name, address) ∷ rest) seen =
      let key = h.lower address in
      elim (Bool-cases (contains key (index_keys index) && not (contains key seen))) [
        | inl e ↦
            rw (e, take_pairs)
              (
                rw (address-address_of name address) (ground (arith, text_eq_refl address)),
                AllIn-cons address (addresses rest) _ (take_pairs-AllIn index rest (key ∷ seen)),
              )
        | inr e ↦
            rw (e, take_pairs)
              (AllIn-cons address (addresses rest) _ (take_pairs-AllIn index rest seen))
      ]

  -- The addresses of a header.
  abbrev pub header_addresses : Headers → Text → List Text
  header_addresses message name =
      addresses (h.email_split_tuples (or_empty (header h name message)))

  pub record IsVisible (message : Headers) (r : Recipients) : Type 0 where
    pub to :
        AllIn (header_addresses message (codes "To")) r.to
        ⊎ ((a : Address) × (r.to ≡ a ∷ []) × (r.bcc ≡ []) × (a.name ≡ none))
    pub cc : AllIn (header_addresses message (codes "Cc")) r.cc
    pub bcc : AllNameless r.bcc

  promote-IsVisible :
      (message : Headers) (to cc bcc : List Address)
      → AllIn (header_addresses message (codes "To")) to
      → AllIn (header_addresses message (codes "Cc")) cc
      → AllNameless bcc
      → IsVisible message (promote (record { to = to; cc = cc; bcc = bcc }))
  unfolding promote
  promote-IsVisible message [] cc [] t c b = record { to = inl t; cc = c; bcc = b }
  promote-IsVisible message [] cc (a ∷ []) t c b = record {
    to = inr (a, refl, refl, b.0);
    cc = c;
    bcc = tt;
  }
  promote-IsVisible message [] cc (a ∷ a' ∷ bcc) t c b =
      let several : (length (a ∷ a' ∷ bcc) == 1) ≡ false = ground arith in
      rw several (record { to = inl t; cc = c; bcc = b })
  promote-IsVisible message (a ∷ to) cc bcc t c b = record { to = inl t; cc = c; bcc = b }

  take-AllIn :
      (index : Index) (message : Headers) (name : Text) (seen : List Text)
      → AllIn (header_addresses message name) (take h index message name seen).0
  unfolding take
  take-AllIn index message name seen =
      take_pairs-AllIn index (h.email_split_tuples (or_empty (header h name message))) seen

  -- After a successful split, each entry of Cc has an address of the Cc header, each entry of Bcc has
  -- no display name, and each entry of To has an address of the To header, unless To is one entry
  -- without a display name and Bcc is empty.
  pub split_recipients-IsVisible :
      (message : Headers) (smtp_to_list : List Text) (r : Recipients)
      → split_recipients h message smtp_to_list ≡ ok r
      → IsVisible message r
  unfolding split_recipients classify check_total
  split_recipients-IsVisible message smtp_to_list r e =
      let index = index_from h [] smtp_to_list in
      let to = take h index message (codes "To") [] in
      let cc = take h index message (codes "Cc") to.1 in
      let found : classify h message index ≡ r = ground arith in
      rw (← found) (
        promote-IsVisible message to.0 cc.0 (hidden index cc.1)
          (take-AllIn index message (codes "To") []) (take-AllIn index message (codes "Cc") to.1)
          (hidden-AllNameless index cc.1))
