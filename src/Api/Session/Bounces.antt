-- ===== src/Api/Session/Bounces.antt =====
-- `_check_recipients`: the recipients that an accepted message did not reach. Sets are lists.
pub mod Reached
use odoo_cloudflare_email.Prelude.{
  Bool, true, false, Option, some, none, not, ◌||◌, List, [], ◌∷◌, ◌++◌, map, if◌then◌else◌,
  is_empty, all,
}
use odoo_cloudflare_email.Text.{Text, codes, contains}
use odoo_cloudflare_email.Json.{
  Json, Number, num, bool, str, arr, obj, nil, Fields, items, keys, get, truthy,
}
use odoo_cloudflare_email.Errors.{
  type_error, attribute_error, no_recipient_reached, Result, ok, err, raise, ◌>>=◌,
}
use odoo_cloudflare_email.Api.Host.{Host}
use odoo_cloudflare_email.Api.Recipients.{Recipients}

-- What iterating a value gives.
unfoldable pub iterate : Json → Result (List Json)
iterate (arr vs) = ok (items vs)
iterate (str s) = ok (map (λ c. str (c ∷ [])) s)
iterate (obj fs) = ok (map str (keys fs))
iterate _ = err type_error

-- `value or []`.
unfoldable pub or_list : Json → Json
or_list v = if truthy v then v else arr nil

-- The number that a value is in a sum: Booleans count as 1 and 0.
unfoldable pub number_of : Json → Option Number
number_of (num n) = some n
number_of (bool true) = some (record { printed = codes "1"; is_zero = false })
number_of (bool false) = some (record { printed = codes "0"; is_zero = true })
number_of _ = none

module _ (h : Host) where
  unfoldable pub sum_reached : Option Number → Option Number → Result Bool
  sum_reached (some m) (some n) = ok (not (h.sums_to_zero m n))
  sum_reached _ _ = err type_error

  -- Whether `delivered + queued` is true.
  unfoldable pub any_reached : Json → Json → Result Bool
  unfolding number_of sum_reached
  any_reached (arr vs) (arr ws) = ok (not (is_empty (items vs)) || not (is_empty (items ws)))
  any_reached (str s) (str t) = ok (not (is_empty (s ++ t)))
  any_reached v w = sum_reached (number_of v) (number_of w)

  unfoldable pub lower_all : List Json → Result (List Text)
  lower_all [] = ok []
  lower_all (str s ∷ rest) = do lowered ← lower_all rest; ok (h.lower s ∷ lowered)
  lower_all (_ ∷ rest) = err attribute_error

  -- `{address.lower() for address in result.get(key) or []}`.
  unfoldable pub address_set : Text → Fields → Result (List Text)
  unfolding lower_all iterate or_list
  address_set key result = do addresses ← iterate (or_list (get key result)); lower_all addresses

  unfoldable pub recipient_set : Recipients → List Text
  recipient_set r = map (λ a. h.lower a.address) (r.to ++ (r.cc ++ r.bcc))

  -- The test on the failed and the reached recipients.
  unfoldable pub judge_recipients :
      List Text → List Text → List Text → Json → Json → Result (Unit {0})
  judge_recipients recipients bounced suppressed delivered queued =
      let failed = bounced ++ suppressed in
      if is_empty failed then ok tt else do
        reached ← any_reached (or_list delivered) (or_list queued)
        (if all (λ k. contains k failed) recipients || not reached
            then raise (no_recipient_reached bounced suppressed)
            else ok tt)

  unfoldable pub check_recipients : Json → Recipients → Result (Unit {0})
  unfolding address_set judge_recipients recipient_set any_reached or_list
  check_recipients (obj result) r = do
    bounced ← address_set (codes "permanent_bounces") result
    suppressed ← address_set (codes "suppressed_recipients") result
    judge_recipients (recipient_set r) bounced suppressed (get (codes "delivered") result)
        (get (codes "queued") result)
  check_recipients _ r = err attribute_error
