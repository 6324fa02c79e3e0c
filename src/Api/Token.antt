-- ===== src/Api/Token.antt =====
-- `verify_token`: the request, the HTTP session that it may open, and what the answer leads to.
use odoo_cloudflare_email.Prelude.{
  ℕ, ◌+◌, ◌-◌, Bool, true, false, not, ◌||◌, if◌then◌else◌, ◌==◌, List, ◌∷◌, ◌++◌,
}
use odoo_cloudflare_email.Text.{Text, codes, text_eq}
use odoo_cloudflare_email.Json.{Json, str, obj, get}
use odoo_cloudflare_email.Errors.{
  unreachable, token_rejected, verification_failed, token_inactive, cloudflare,
  CloudflareEmailError, attribute_error, Result, ok, err, raise,
}
use odoo_cloudflare_email.Api.Session.{api_base}
use odoo_cloudflare_email.Api.Response.{
  Outcome, answered, failed, parse_json, described, is_credential_status, is_success, result_of,
}

unfoldable pub is_active : Json → Bool
is_active (str s) = text_eq s (codes "active")
is_active _ = false

-- The last test, on the `result` object.
unfoldable pub check_active : Json → Result Json
unfolding is_active
check_active (obj fs) =
    let status = get (codes "status") fs in
    if is_active status then ok (obj fs) else raise (token_inactive status)
check_active _ = err attribute_error

raise_described : {A : Type 0} → Result CloudflareEmailError → Result A
raise_described (ok e) = err (cloudflare e)
raise_described (err e) = err e

unfoldable pub judge_token : Outcome → Result Json
unfolding raise_described check_active
judge_token (failed text) = raise (unreachable text)
judge_token (answered r) =
    let payload = parse_json r in
    if is_credential_status r.status_code
    then raise_described (described token_rejected r.status_code payload true)
    else if not (r.status_code == 200) || not (is_success payload)
    then raise_described (described verification_failed r.status_code payload false)
    else check_active (result_of payload)

-- A GET request.
pub record Get : Type 0 where
  pub url : Text
  pub authorization : Text

-- The requests so far, the newest first, and the HTTP sessions that are open.
pub record HttpState : Type 0 where
  pub gets : List Get
  pub open_sessions : ℕ

unfoldable pub verify_url : Text
verify_url = api_base ++ codes "/user/tokens/verify"

-- `requests.Session()`, and its `close`.
unfoldable pub open_session : HttpState → HttpState
open_session s = record s { open_sessions = s.open_sessions + 1 }

unfoldable pub close_session : HttpState → HttpState
close_session s = record s { open_sessions = s.open_sessions - 1 }

unfoldable pub http_get : Text → HttpState → HttpState
unfolding verify_url
http_get api_token s = record s {
  gets = record { url = verify_url; authorization = codes "Bearer " ++ api_token } ∷ s.gets;
}

-- `verify_token`; the flag says that the caller gave no HTTP session. The outcome of the request is
-- judged behind the `finally`, which closes the function's own session on either outcome.
unfoldable pub verify_token :
    (List Get → Outcome) → Bool → Text → HttpState → Result Json × HttpState
unfolding judge_token open_session close_session http_get
verify_token network owns_http api_token s =
    let opened = if owns_http then open_session s else s in
    let asked = http_get api_token opened in
    (judge_token (network asked.gets), if owns_http then close_session asked else asked)
