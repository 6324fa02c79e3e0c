-- ===== src/Api/Headers/Threading.antt =====
-- Odoo's own message id in the References header, from which a reply finds its thread.
use odoo_cloudflare_email.Prelude.{
  ◌≡◌, refl, false, List, [], ◌∷◌, ◌++◌, sym, ap, ◌∙◌, is_empty, All, All-append,
}
use odoo_cloudflare_email.Text.{Text, codes, strip, contains, join}
use odoo_cloudflare_email.Text.Equality.{text_eq_refl}
use odoo_cloudflare_email.Text.Dict.{Dict, lookup, lookup-put}
use odoo_cloudflare_email.Errors.{ok}
use odoo_cloudflare_email.Api.Host.{Host}
use odoo_cloudflare_email.Api.Mime.{Headers, header, or_empty}
use odoo_cloudflare_email.Api.MessageIds.{find_ids}
use odoo_cloudflare_email.Api.MessageIds.RoundTrip.{
  IsMessageId, find_ids-join, find_ids-IsMessageId,
}
use odoo_cloudflare_email.Api.Headers.{
  collect, set_references, references_key, all_references, threaded, passthrough_headers,
}
use odoo_cloudflare_email.Api.Headers.Trim.{IsTrimmed, trim-IsTrimmed}
use odoo_cloudflare_email.Api.Headers.Limits.{check_limits-IsWithinLimits}

cons_of_filled :
    (xs : List Text) → is_empty xs ≡ false → (x : Text) × (rest : List Text) × (xs ≡ x ∷ rest)
cons_of_filled [] e = cc
cons_of_filled (x ∷ rest) e = (x, rest, refl)

-- A suffix of a list that ends in `a` ends in `a`.
split_last :
    (xs ys zs : List Text) (a : Text)
    → xs ++ a ∷ [] ≡ ys ++ zs
    → is_empty zs ≡ false
    → (earlier : List Text) × (zs ≡ earlier ++ a ∷ []) × (xs ≡ ys ++ earlier)
split_last xs [] zs a e f = (xs, sym e, refl)
split_last [] (y ∷ []) [] a e f = cc
split_last [] (y ∷ []) (z ∷ zs) a e f = cc
split_last [] (y ∷ y' ∷ ys) zs a e f = cc
split_last (x ∷ xs) (y ∷ ys) zs a e f =
    let (earlier, ends, same) = split_last xs ys zs a (cc) f in (earlier, ends, cc)

All-suffix {κ} : (P : Text → Type κ) (xs ys : List Text) → All P (xs ++ ys) → All P ys
All-suffix P [] ys h = h
All-suffix P (x ∷ xs) ys h = All-suffix P xs ys h.1

is_empty-snoc : (xs : List Text) (a : Text) → is_empty (xs ++ a ∷ []) ≡ false
is_empty-snoc [] a = refl
is_empty-snoc (x ∷ xs) a = refl

module _ (h : Host) (message : Headers) where
  -- The message's own id, and the ids that its References headers hold.
  abbrev pub own_id : Text
  own_id = strip (or_empty (header h (codes "Message-Id") message))

  abbrev pub found_ids : List Text
  found_ids = find_ids (or_empty (lookup references_key (collect h [] message)))

  threaded-IsTrimmed :
      is_empty (all_references h message (collect h [] message)) ≡ false
      → IsTrimmed
          (all_references h message (collect h [] message))
          (collect h [] message)
          (threaded h message).0
          (threaded h message).1
  unfolding threaded
  threaded-IsTrimmed f =
      let references = all_references h message (collect h [] message) in
      let (r, rest, e) = cons_of_filled references f in
      rw e (trim-IsTrimmed r rest (collect h [] message) _ refl)

  all_references_new :
      is_empty own_id ≡ false
      → contains own_id found_ids ≡ false
      → all_references h message (collect h [] message) ≡ found_ids ++ own_id ∷ []
  unfolding all_references
  all_references_new f n = rw (f, n)

  lookup-set_references :
      (ids : List Text) (d : Dict)
      → or_empty (lookup references_key (set_references ids d)) ≡ join (codes " ") ids
  unfolding set_references
  lookup-set_references ids d = rw lookup-put (rw text_eq_refl)

  -- When the message has an id of its own, in angle brackets, that its References do not hold, the
  -- References that are sent parse into a suffix of the message's references and behind them its own
  -- id.
  pub passthrough_headers-own_id :
      (d : Dict)
      → passthrough_headers h message ≡ ok d
      → IsMessageId own_id
      → contains own_id found_ids ≡ false
      → (dropped : List Text) × (earlier : List Text) × (found_ids ≡ dropped ++ earlier)
        × (find_ids (or_empty (lookup references_key d)) ≡ earlier ++ own_id ∷ [])
  unfolding passthrough_headers
  passthrough_headers-own_id d e m n =
      let same = (check_limits-IsWithinLimits (threaded h message).1 d e).0 in
      let refs_eq = all_references_new (ap is_empty m.bracketed) n in
      let trimmed = threaded-IsTrimmed (ap is_empty refs_eq ∙ is_empty-snoc found_ids own_id) in
      let (earlier, ends, before) =
        split_last found_ids trimmed.dropped (threaded h message).0 own_id
          (sym refs_eq ∙ trimmed.split)
          (sym trimmed.left ∙ ap is_empty refs_eq ∙ is_empty-snoc found_ids own_id) in
      let ids : All IsMessageId (threaded h message).0 = All-suffix IsMessageId trimmed.dropped _ (
        rw (← trimmed.split)
          (rw refs_eq (All-append IsMessageId found_ids _ (find_ids-IsMessageId _) (m, tt)))) in
      (
        trimmed.dropped,
        earlier,
        before,
        ap (λ (x : Dict). find_ids (or_empty (lookup references_key x)))
              (sym same ∙ trimmed.written)
            ∙ ap find_ids (lookup-set_references _ _)
            ∙ find_ids-join _ ids
            ∙ ends,
      )
