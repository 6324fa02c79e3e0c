-- ===== src/Api/Response.antt =====
-- What the REST API answers, and `_parse_json`, `_describe`, `_first_code` and `_retry_after`.
-- The network is a parameter: an outcome for each history of requests.
use odoo_cloudflare_email.Prelude.{
  ℕ, Bool, false, Option, none, some, List, [], ◌∷◌, ℤ, if◌then◌else◌, ◌==◌, ◌||◌,
}
use odoo_cloudflare_email.Text.{Text, codes}
use odoo_cloudflare_email.Text.Number.{parse_int}
use odoo_cloudflare_email.Json.{
  Json, null, str, arr, obj, nil, cons, Fields, end, items, get, truthy,
}
use odoo_cloudflare_email.Errors.{
  Description, Message, CloudflareEmailError, type_error, key_error, Result, ok, err, ◌>>=◌,
}
use odoo_cloudflare_email.Api.Mime.{or_empty}

-- `json` is the decoded body, none where `response.json()` raises `ValueError`.
pub record Response : Type 0 where
  pub status_code : ℕ
  pub json : Option Json
  pub retry_after : Option Text

-- A response, or the text of a `requests.RequestException`.
pub data Outcome : Type 0 where
  answered : Response → Outcome
  failed : Text → Outcome

-- `_parse_json`: the dict, or none.
unfoldable pub parse_json : Response → Option Fields
parse_json r = elim r.json [ some (obj fs) ↦ some fs | _ ↦ none ]

-- `(payload or {}).get("errors") or []`.
unfoldable pub errors_of : Option Fields → Json
errors_of none = arr nil
errors_of (some fs) =
    let errors = get (codes "errors") fs in if truthy errors then errors else arr nil

-- The code and the message of each error that is a dict.
dict_errors : List Json → List (Json × Json)
dict_errors [] = []
dict_errors (obj fs ∷ rest) = (get (codes "code") fs, get (codes "message") fs) ∷ dict_errors rest
dict_errors (_ ∷ rest) = dict_errors rest

-- The loop over the errors: the characters of a text and the keys of a dict are no dicts; a number
-- or a Boolean cannot be iterated.
unfoldable pub details : Json → Result (List (Json × Json))
unfolding dict_errors
details (arr vs) = ok (dict_errors (items vs))
details (str s) = ok []
details (obj fs) = ok []
details _ = err type_error

unfoldable pub describe : ℕ → Option Fields → Result Description
unfolding details errors_of
describe status payload = do
  found ← details (errors_of payload)
  ok (record { status = status; details = found })

-- `errors[0].get("code")` if that is a dict; a dict has no key 0.
unfoldable pub head_code : Json → Result Json
head_code (arr nil) = ok null
head_code (arr (cons (obj fs) vs)) = ok (get (codes "code") fs)
head_code (arr (cons v vs)) = ok null
head_code (str s) = ok null
head_code (obj fs) = err key_error
head_code _ = err type_error

unfoldable pub first_code : Option Fields → Result Json
unfolding head_code errors_of
first_code payload = head_code (errors_of payload)

-- `_retry_after`; `int("")` fails.
unfoldable pub retry_after : Response → Option ℤ
unfolding parse_int
retry_after r = parse_int (or_empty r.retry_after)

-- A `CloudflareEmailError` that describes an answer.
unfoldable pub described :
    (Description → Message) → ℕ → Option Fields → Bool → Result CloudflareEmailError
unfolding describe first_code
described message status payload fatal = do
  description ← describe status payload
  code ← first_code payload
  ok (record { message = message description; status = some status; code = code; fatal = fatal })

abbrev pub is_credential_status : ℕ → Bool
is_credential_status status = status == 401 || status == 403

abbrev pub is_success : Option Fields → Bool
is_success none = false
is_success (some fs) = truthy (get (codes "success") fs)

-- `payload.get("result") or {}`.
unfoldable pub result_of : Option Fields → Json
result_of none = obj end
result_of (some fs) = let r = get (codes "result") fs in if truthy r then r else obj end
