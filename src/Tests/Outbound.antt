-- ===== src/Tests/Outbound.antt =====
-- The recipients and the headers of concrete messages.
use odoo_cloudflare_email.Prelude.{
  ℕ, zero, suc, ◌⊎◌, ◌≤◌, ◌≡◌, refl, false, none, List, [], ◌∷◌, ◌++◌, arith, All,
}
use odoo_cloudflare_email.Text.{
  Text, codes, contains, join, text_eq, strip, starts_with, byte_length,
}
use odoo_cloudflare_email.Text.Equality.{count}
use odoo_cloudflare_email.Text.Dict.{Dict, dict_keys, lookup, put}
use odoo_cloudflare_email.Errors.{ok}
use odoo_cloudflare_email.Samples.{ascii_host, split_commas}
use odoo_cloudflare_email.Api.Mime.{Headers, or_empty, header}
use odoo_cloudflare_email.Api.Recipients.{Recipients, split_recipients, address_of}
use odoo_cloudflare_email.Api.Recipients.Partition.{IsPartition, split_recipients-IsPartition}
use odoo_cloudflare_email.Api.Recipients.Visible.{IsVisible, split_recipients-IsVisible}
use odoo_cloudflare_email.Json.{Fields, str, arr, obj, nil, cons, end, field, get}
use odoo_cloudflare_email.Api.Session.Bounces.{check_recipients, address_set}
use odoo_cloudflare_email.Api.Session.Bounces.Reached.{IsReached, check_recipients-IsReached}
use odoo_cloudflare_email.Api.MessageIds.{find_ids}
use odoo_cloudflare_email.Api.MessageIds.RoundTrip.{IsMessageId}
use odoo_cloudflare_email.Api.Headers.{
  passthrough_headers, references_oversized, set_references, references_key, trim, collect,
  too_long, is_allowed, allowed_headers, canonical_in, header_size,
}
use odoo_cloudflare_email.Api.Headers.Names.{IsPermitted, lower_keys, passthrough_headers-names}
use odoo_cloudflare_email.Api.Headers.Loop.{Ends, trim-Ends}
use odoo_cloudflare_email.Api.Headers.Trim.{IsTrimmed, trim-IsTrimmed}
use odoo_cloudflare_email.Api.Headers.Threading.{own_id, found_ids, passthrough_headers-own_id}

abbrev letter : Headers
letter =
    (codes "To", codes "a@x.org, B@x.org")
    ∷ (codes "X-Mark", codes " one ")
    ∷ (codes "x-mark", codes "two")
    ∷ (codes "Received", codes "by mx")
    ∷ (codes "references", codes "<p@x> <q@x>")
    ∷ (codes "Message-Id", codes "<own@x>")
    ∷ []

abbrev envelope : List Text
envelope =
    codes "b@x.org" ∷ codes "c@x.org" ∷ codes "a@x.org" ∷ codes "B@X.org" ∷ codes "d@x.org" ∷ []

abbrev split : Recipients
split = record {
  to =
      record { address = codes "a@x.org"; name = none }
      ∷ record { address = codes "B@x.org"; name = none }
      ∷ [];
  cc = [];
  bcc =
      record { address = codes "c@x.org"; name = none }
      ∷ record { address = codes "d@x.org"; name = none }
      ∷ [];
}

split_letter : split_recipients ascii_host letter envelope ≡ ok split
unfolding split_recipients split_commas header text_eq strip contains address_of
split_letter = refl

split_recipients-IsPartition_example : IsPartition ascii_host envelope split
split_recipients-IsPartition_example =
    split_recipients-IsPartition ascii_host letter envelope split split_letter

split_recipients-IsVisible_example : IsVisible ascii_host letter split
split_recipients-IsVisible_example =
    split_recipients-IsVisible ascii_host letter envelope split split_letter

abbrev sent_headers : Dict
sent_headers =
    (codes "X-Mark", codes "one, two") ∷ (codes "References", codes "<p@x> <q@x> <own@x>") ∷ []

headers_letter : passthrough_headers ascii_host letter ≡ ok sent_headers
unfolding passthrough_headers too_long strip header text_eq contains find_ids lookup collect
    is_allowed allowed_headers starts_with canonical_in put byte_length join header_size
headers_letter = refl

passthrough_headers-names_example :
    All (λ key. IsPermitted ascii_host (ascii_host.lower key)) (dict_keys sent_headers)
    × ((k : Text) → count k (lower_keys ascii_host sent_headers) ≤ 1)
passthrough_headers-names_example =
    passthrough_headers-names ascii_host letter sent_headers headers_letter

own_id-IsMessageId : IsMessageId (own_id ascii_host letter)
unfolding header text_eq strip
own_id-IsMessageId = record {
  inner = codes "own@x";
  bracketed = refl;
  plain = omega arith;
  filled = refl;
}

own_id_is_new : contains (own_id ascii_host letter) (found_ids ascii_host letter) ≡ false
unfolding header text_eq strip contains collect lookup find_ids is_allowed allowed_headers
    starts_with canonical_in put
own_id_is_new = refl

passthrough_headers-own_id_example :
    (dropped : List Text) × (earlier : List Text) × (found_ids ascii_host letter
      ≡ dropped ++ earlier)
    × (find_ids (or_empty (lookup references_key sent_headers))
        ≡ earlier ++ own_id ascii_host letter ∷ [])
passthrough_headers-own_id_example =
    passthrough_headers-own_id ascii_host letter sent_headers headers_letter own_id-IsMessageId
      own_id_is_new

abbrev base_headers : Dict
base_headers = (codes "X-Mark", codes "one") ∷ []

abbrev started_headers : Dict
started_headers = set_references (codes "<p@x>" ∷ codes "<q@x>" ∷ []) base_headers

trim-IsTrimmed_example :
    IsTrimmed
      (codes "<p@x>" ∷ codes "<q@x>" ∷ [])
      base_headers
      (trim (codes "<p@x>" ∷ codes "<q@x>" ∷ []) started_headers).0
      (trim (codes "<p@x>" ∷ codes "<q@x>" ∷ []) started_headers).1
trim-IsTrimmed_example =
    trim-IsTrimmed (codes "<p@x>") (codes "<q@x>" ∷ []) base_headers started_headers refl

-- One of the four recipients bounced, and another one was delivered.
abbrev bounces : Fields
bounces =
    field (codes "permanent_bounces") (arr (cons (str (codes "C@x.org")) nil))
      (field (codes "delivered") (arr (cons (str (codes "a@x.org")) nil)) end)

bounces_pass : check_recipients ascii_host (obj bounces) split ≡ ok tt
unfolding check_recipients contains text_eq get
bounces_pass = refl

check_recipients-IsReached_example :
    (bounced : List Text) × (suppressed : List Text) × (address_set ascii_host
        (codes "permanent_bounces")
        bounces
      ≡ ok bounced)
    × (address_set ascii_host (codes "suppressed_recipients") bounces ≡ ok suppressed)
    × ((bounced ++ suppressed ≡ []) ⊎ IsReached ascii_host bounces split (bounced ++ suppressed))
check_recipients-IsReached_example =
    check_recipients-IsReached ascii_host bounces split bounces_pass

-- An id that does not fit beside another.
letters : ℕ → Text
letters zero = []
letters (suc n) = b'a' ∷ letters n

abbrev long_ids : List Text
long_ids = letters 2048 ∷ codes "<q@x>" ∷ []

abbrev long_headers : Dict
long_headers = set_references long_ids base_headers

long_ids_test : (trim long_ids long_headers).0 ≡ codes "<q@x>" ∷ []
unfolding trim references_oversized set_references lookup put join byte_length header_size letters
    text_eq
long_ids_test = refl

trim-Ends_example :
    Ends long_ids long_headers (trim long_ids long_headers).0 (trim long_ids long_headers).1
trim-Ends_example = trim-Ends long_ids long_headers
