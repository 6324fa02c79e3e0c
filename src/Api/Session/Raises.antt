-- ===== src/Api/Session/Raises.antt =====
-- The exceptions that no refused token causes: none of them is fatal.
use odoo_cloudflare_email.Prelude.{◌≡◌, false, Option, none, some, List, [], ◌∷◌, inl, inr, arith}
use odoo_cloudflare_email.Text.{Text, codes}
use odoo_cloudflare_email.Json.{Json, Number, str, arr, obj, Fields, get}
use odoo_cloudflare_email.Errors.{Exception, err, is_fatal, >>=-eq-err}
use odoo_cloudflare_email.Api.Host.{Host}
use odoo_cloudflare_email.Api.Mime.{EmailMessage, Headers}
use odoo_cloudflare_email.Api.Recipients.{
  Recipients, split_recipients, check_total, classify, index_from,
}
use odoo_cloudflare_email.Api.Headers.{passthrough_headers}
use odoo_cloudflare_email.Api.Payload.{build_payload, sender, some_body}
use odoo_cloudflare_email.Api.Session.Bounces.{
  check_recipients, address_set, judge_recipients, lower_all, iterate, sum_reached, any_reached,
  number_of, or_list, recipient_set,
}
use odoo_cloudflare_email.Api.Session.Send.{finish}

module _ (h : Host) where
  check_total-err : (r : Recipients) (x : Exception) → check_total r ≡ err x → is_fatal x ≡ false
  unfolding check_total
  check_total-err r x e = ground arith

  split_recipients-err :
      (m : Headers) (l : List Text) (x : Exception)
      → split_recipients h m l ≡ err x
      → is_fatal x ≡ false
  unfolding split_recipients
  split_recipients-err m l x e = check_total-err (classify h m (index_from h [] l)) x e

  passthrough_headers-err :
      (m : Headers) (x : Exception) → passthrough_headers h m ≡ err x → is_fatal x ≡ false
  unfolding passthrough_headers
  passthrough_headers-err m x e = ground arith

  sender-err : (m : EmailMessage) (x : Exception) → sender h m ≡ err x → is_fatal x ≡ false
  unfolding sender
  sender-err m x e = ground arith

  some_body-err : (m : EmailMessage) (x : Exception) → some_body h m ≡ err x → is_fatal x ≡ false
  unfolding some_body
  some_body-err m x e = ground arith

  pub build_payload-err :
      (m : EmailMessage) (l : List Text) (x : Exception)
      → build_payload h m l ≡ err x
      → is_fatal x ≡ false
  unfolding build_payload
  build_payload-err m l x e = ground (
    arith,
    sender-err m x,
    split_recipients-err m.headers l x,
    some_body-err m x,
    passthrough_headers-err m.headers x,
  )

  lower_all-err : (vs : List Json) (x : Exception) → lower_all h vs ≡ err x → is_fatal x ≡ false
  unfolding lower_all
  lower_all-err [] x e = cc
  lower_all-err (str s ∷ vs) x e = ground (arith, lower_all-err vs x)
  lower_all-err (_ ∷ vs) x e = ground arith

  iterate-err : (v : Json) (x : Exception) → iterate v ≡ err x → is_fatal x ≡ false
  unfolding iterate
  iterate-err (arr vs) x e = cc
  iterate-err v x e = ground arith

  address_set-err :
      (key : Text) (fs : Fields) (x : Exception) → address_set h key fs ≡ err x → is_fatal x ≡ false
  unfolding address_set
  address_set-err key fs x e = elim (>>=-eq-err (iterate (or_list (get key fs))) (lower_all h) e) [
    | inl i ↦ iterate-err (or_list (get key fs)) x i
    | inr (vs, i, l) ↦ lower_all-err vs x l
  ]

  sum_reached-err :
      (m n : Option Number) (x : Exception) → sum_reached h m n ≡ err x → is_fatal x ≡ false
  unfolding sum_reached
  sum_reached-err none n x e = ground arith
  sum_reached-err (some m) none x e = ground arith
  sum_reached-err (some m) (some n) x e = cc

  any_reached-err : (v w : Json) (x : Exception) → any_reached h v w ≡ err x → is_fatal x ≡ false
  unfolding any_reached
  any_reached-err (arr vs) (arr ws) x e = cc
  any_reached-err (str s) (str t) x e = cc
  any_reached-err v w x e = sum_reached-err (number_of v) (number_of w) x e

  judge_recipients-err :
      (rs bs ss : List Text) (d q : Json) (x : Exception)
      → judge_recipients h rs bs ss d q ≡ err x
      → is_fatal x ≡ false
  unfolding judge_recipients
  judge_recipients-err rs bs ss d q x e = ground (arith, any_reached-err (or_list d) (or_list q) x)

  check_recipients-err :
      (result : Json) (r : Recipients) (x : Exception)
      → check_recipients h result r ≡ err x
      → is_fatal x ≡ false
  unfolding check_recipients
  check_recipients-err (obj fs) r x e =
      elim (>>=-eq-err (address_set h (codes "permanent_bounces") fs) _ e) [
        | inl b ↦ address_set-err (codes "permanent_bounces") fs x b
        | inr (bs, b, e') ↦
            elim (>>=-eq-err (address_set h (codes "suppressed_recipients") fs) _ e') [
              | inl c ↦ address_set-err (codes "suppressed_recipients") fs x c
              | inr (ss, c, e'') ↦
                  judge_recipients-err (recipient_set h r) bs ss (get (codes "delivered") fs)
                    (get (codes "queued") fs) x e''
            ]
      ]
  check_recipients-err v r x e = ground arith

  pub finish-err :
      (result : Json) (r : Recipients) (x : Exception)
      → finish h r result ≡ err x
      → is_fatal x ≡ false
  unfolding finish
  finish-err result r x e = ground (arith, check_recipients-err result r x)
