-- ===== src/Api/Recipients.antt =====
-- `_address` and `_split_recipients`.
pub mod Envelope
pub mod Partition
pub mod Visible
use odoo_cloudflare_email.Prelude.{
  ℕ, ◌+◌, ◌≡◌, Bool, true, false, not, ◌&&◌, Option, none, some, List, [], ◌∷◌, ◌++◌, map, ltb,
  ◌==◌, if◌then◌else◌, is_empty, length,
}
use odoo_cloudflare_email.Text.{Text, codes, contains}
use odoo_cloudflare_email.Errors.{Result, ok, raise, no_recipient, too_many_recipients}
use odoo_cloudflare_email.Api.Host.{Host}
use odoo_cloudflare_email.Api.Mime.{Headers, header, or_empty}

abbrev pub max_recipients : ℕ
max_recipients = 50

-- The object `{"address": …, "name": …}`; the name may be left out.
pub record Address : Type 0 where
  pub address : Text
  pub name : Option Text

unfoldable pub address_of : Text × Text → Address
address_of (name, address) =
    if is_empty name
    then record { address = address; name = none }
    else record { address = address; name = some name }

-- The dict `envelope`: lower-cased addresses with their first spelling, in the order of insertion.
abbrev pub Index : Type 0
Index = List (Text × Text)

abbrev pub index_keys : Index → List Text
index_keys = map (λ e. e.0)

-- `envelope.setdefault(key, address)`.
unfoldable pub setdefault : Text → Text → Index → Index
setdefault key address index =
    if contains key (index_keys index) then index else index ++ (key, address) ∷ []

module _ (h : Host) where
  -- The loop that fills `envelope`.
  unfoldable pub index_from : Index → List Text → Index
  index_from index [] = index
  index_from index (address ∷ rest) = index_from (setdefault (h.lower address) address index) rest

  -- The loop of `take`; the second result is the set `seen` after it.
  unfoldable pub take_pairs : Index → List (Text × Text) → List Text → List Address × List Text
  take_pairs index [] seen = ([], seen)
  take_pairs index ((name, address) ∷ rest) seen =
      let key = h.lower address in
      elim (contains key (index_keys index) && not (contains key seen)) [
        | true ↦
            let (pairs, seen') = take_pairs index rest (key ∷ seen) in
            (address_of (name, address) ∷ pairs, seen')
        | false ↦ take_pairs index rest seen
      ]

  unfoldable pub take : Index → Headers → Text → List Text → List Address × List Text
  unfolding take_pairs
  take index message name seen =
      take_pairs index (h.email_split_tuples (or_empty (header h name message))) seen

-- The comprehension that lists who is in the envelope and in no header.
unfoldable pub hidden : Index → List Text → List Address
hidden [] seen = []
hidden ((key, address) ∷ index) seen =
    let rest = hidden index seen in
    if contains key seen then rest else address_of ([], address) ∷ rest

pub record Recipients : Type 0 where
  pub to : List Address
  pub cc : List Address
  pub bcc : List Address

-- A lone hidden recipient becomes the visible one.
unfoldable pub promote : Recipients → Recipients
promote r =
    if is_empty r.to && length r.bcc == 1 then record { to = r.bcc; cc = r.cc; bcc = [] } else r

abbrev pub total : Recipients → ℕ
total r = length r.to + length r.cc + length r.bcc

unfoldable pub check_total : Recipients → Result Recipients
check_total r =
    if total r == 0
    then raise no_recipient
    else if ltb max_recipients (total r)
    then raise (too_many_recipients (total r))
    else ok r

module _ (h : Host) where
  unfoldable pub classify : Headers → Index → Recipients
  unfolding promote take hidden
  classify message index =
      let (to, seen) = take h index message (codes "To") [] in
      let (cc, seen') = take h index message (codes "Cc") seen in
      promote (record { to = to; cc = cc; bcc = hidden index seen' })

  unfoldable pub split_recipients : Headers → List Text → Result Recipients
  unfolding classify check_total index_from setdefault
  split_recipients message smtp_to_list =
      check_total (classify message (index_from h [] smtp_to_list))
