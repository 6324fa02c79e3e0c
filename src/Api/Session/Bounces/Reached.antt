-- ===== src/Api/Session/Bounces/Reached.antt =====
-- What it means that the answer of an accepted message passes the bounce check.
use odoo_cloudflare_email.Prelude.{
  ◌≡◌, refl, ◌⊎◌, inl, inr, Bool, true, false, List, [], ◌∷◌, ◌++◌, all, is_empty, Bool-cases,
  arith,
}
use odoo_cloudflare_email.Text.{Text, codes, contains}
use odoo_cloudflare_email.Text.Equality.{text_eq_refl}
use odoo_cloudflare_email.Json.{Json, obj, Fields, get}
use odoo_cloudflare_email.Errors.{ok, Result-cases}
use odoo_cloudflare_email.Api.Host.{Host}
use odoo_cloudflare_email.Api.Recipients.{Recipients}
use odoo_cloudflare_email.Api.Session.Bounces.{
  or_list, any_reached, address_set, recipient_set, judge_recipients, check_recipients,
}

-- A text of the list that the test refuses.
refused_of_all :
    (test : Text → Bool) (ks : List Text)
    → all test ks ≡ false
    → (k : Text) × (contains k ks ≡ true) × (test k ≡ false)
unfolding contains
refused_of_all test [] e = cc
refused_of_all test (k ∷ ks) e = elim (Bool-cases (test k)) [
  | inr refused ↦ (k, ground (arith, text_eq_refl k), refused)
  | inl passed ↦
      let (j, inside, refused) = refused_of_all test ks (ground (arith, passed)) in
      (j, ground (arith, inside), refused)
]

eq_nil : (ks : List Text) → is_empty ks ≡ true → ks ≡ []
eq_nil [] e = refl
eq_nil (k ∷ ks) e = cc

-- A recipient of the request that no list of failures holds, where the sum of `delivered` and
-- `queued` is true.
pub record IsReached (h : Host) (result : Fields) (r : Recipients) (failed : List Text)
    : Type 0 where
  pub key : Text
  pub recipient : contains key (recipient_set h r) ≡ true
  pub spared : contains key failed ≡ false
  pub reached :
      any_reached h
        (or_list (get (codes "delivered") result))
        (or_list (get (codes "queued") result))
      ≡ ok true

module _ (h : Host) (result : Fields) (r : Recipients) where
  abbrev delivered : Json
  delivered = or_list (get (codes "delivered") result)

  abbrev queued : Json
  queued = or_list (get (codes "queued") result)

  judge_recipients-IsReached :
      (bounced suppressed : List Text)
      → judge_recipients h
          (recipient_set h r)
          bounced
          suppressed
          (get (codes "delivered") result)
          (get (codes "queued") result)
        ≡ ok tt
      → (bounced ++ suppressed ≡ []) ⊎ IsReached h result r (bounced ++ suppressed)
  unfolding judge_recipients
  judge_recipients-IsReached bounced suppressed e =
      let failed = bounced ++ suppressed in
      elim (Bool-cases (is_empty failed)) [
        | inl e' ↦ inl (eq_nil failed e')
        | inr some_failed ↦ elim (Bool-cases (all (λ k. contains k failed) (recipient_set h r))) [
          | inl everyone ↦ elim (Result-cases (any_reached h delivered queued)) [
            | inr (x, bad) ↦ cc (rw (some_failed, bad) at e)
            | inl (b, known) ↦ cc (rw (some_failed, known, everyone) at e)
          ]
          | inr not_all ↦ elim (Result-cases (any_reached h delivered queued)) [
            | inr (x, bad) ↦ cc (rw (some_failed, bad) at e)
            | inl (false, nobody) ↦ cc (rw (some_failed, nobody, not_all) at e)
            | inl (true, somebody) ↦
                let (k, inside, spared) =
                  refused_of_all (λ k. contains k failed) (recipient_set h r) not_all in
                inr (record { key = k; recipient = inside; spared = spared; reached = somebody })
          ]
        ]
      ]

  -- An answer passes only when its lists of bounced and suppressed recipients can be read, and
  -- they are both empty, or hold not every recipient of the request while the sum of
  -- `delivered` and `queued` is true in Python's sense.
  pub check_recipients-IsReached :
      check_recipients h (obj result) r ≡ ok tt
      → (bounced : List Text) × (suppressed : List Text) × (address_set h
            (codes "permanent_bounces")
            result
          ≡ ok bounced)
        × (address_set h (codes "suppressed_recipients") result ≡ ok suppressed)
        × ((bounced ++ suppressed ≡ []) ⊎ IsReached h result r (bounced ++ suppressed))
  unfolding check_recipients
  check_recipients-IsReached e =
      elim (Result-cases (address_set h (codes "permanent_bounces") result)) [
        | inr (x, bad) ↦ cc (rw bad at e)
        | inl (bounced, b) ↦
            elim (Result-cases (address_set h (codes "suppressed_recipients") result)) [
              | inr (x, bad) ↦ cc (rw (b, bad) at e)
              | inl (suppressed, s) ↦ (
                bounced,
                suppressed,
                b,
                s,
                judge_recipients-IsReached bounced suppressed (rw (b, s) at e),
              )
            ]
      ]
