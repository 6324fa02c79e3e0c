-- ===== src/Api/Session.antt =====
-- `CloudflareSendingSession`: its state and the retry matrix of `_post`. The children hold
-- `_check_recipients` and `send_message`.
pub mod Bounces
pub mod Send
pub mod Run
pub mod Retry
pub mod Endings
pub mod Memory
pub mod Delivery
pub mod Raises
pub mod Batch
pub mod Addressed
pub mod Breaker
pub mod Posted
pub mod Close
use odoo_cloudflare_email.Prelude.{
  ℕ, zero, suc, ◌+◌, ◌-◌, ◌*◌, ◌^◌, ◌≡◌, Bool, true, false, not, ◌&&◌, ◌||◌, Option, none, some,
  List, [], ◌∷◌, ◌++◌, map, ℤ, pos, negsuc, min_ℤ, ltb, leb, ◌==◌, if◌then◌else◌, is_empty, length,
  all,
}
use odoo_cloudflare_email.Text.{Text, Bytes, codes, contains}
use odoo_cloudflare_email.Json.{Json, obj, Fields}
use odoo_cloudflare_email.Errors.{
  Message, CloudflareEmailError, Exception, plain, cloudflare, value_error, attribute_error,
  unreachable, without_success, refused, giving_up, not_retried, body_too_large, Result, ok, err,
  ◌>>=◌,
}
use odoo_cloudflare_email.Api.Response.{
  Response, Outcome, answered, failed, parse_json, described, is_credential_status, is_success,
  result_of, retry_after,
}

abbrev pub max_attempts : ℕ
max_attempts = 3

abbrev pub max_retry_after : ℕ
max_retry_after = 10

abbrev pub max_body_bytes : ℕ
max_body_bytes = 5 * 1024 * 1024

pub record Request : Type 0 where
  pub url : Text
  pub body : Bytes
  pub authorization : Text

-- The attributes of the session. `_http` is the network, a parameter.
pub record Session : Type 0 where
  pub account_id : Text
  pub from_filter : Option Text
  pub smtp_from : Option Text
  pub mail_server_name : Text
  pub send_url : Text
  pub authorization : Text
  pub fatal_error : Option CloudflareEmailError

abbrev pub api_base : Text
api_base = codes "https://api.cloudflare.com/client/v4"

-- `SEND_URL.format(account_id=account_id)`.
abbrev pub send_url_of : Text → Text
send_url_of account_id =
    api_base ++ (codes "/accounts/" ++ (account_id ++ codes "/email/sending/send"))

-- `__init__`.
unfoldable pub new_session : Text → Text → Option Text → Option Text → Text → Session
new_session account_id api_token from_filter smtp_from mail_server_name = record {
  account_id = account_id;
  from_filter = from_filter;
  smtp_from = smtp_from;
  mail_server_name = mail_server_name;
  send_url = send_url_of account_id;
  authorization = codes "Bearer " ++ api_token;
  fatal_error = none;
}

-- The session with what it did: requests and sleeps, the newest first.
pub record State : Type 0 where
  pub session : Session
  pub requests : List Request
  pub sleeps : List ℕ

-- What a request's outcome means to the loop.
pub data Verdict : Type 0 where
  done : Json → Verdict
  stop : Exception → Verdict
  fatal : CloudflareEmailError → Verdict
  retry : CloudflareEmailError → ℤ → Verdict

-- `_retry_after(response) or 2**attempt`.
abbrev pub delay_or : Option ℤ → ℕ → ℤ
delay_or none n = pos n
delay_or (some (pos zero)) n = pos n
delay_or (some (pos (suc m))) n = pos (suc m)
delay_or (some (negsuc m)) n = negsuc m

unfoldable pub judge_refusal : ℕ → Response → CloudflareEmailError → Verdict
judge_refusal attempt r error =
    if error.fatal
    then fatal error
    else if r.status_code == 429
    then retry error (delay_or (retry_after r) (2 ^ attempt))
    else if leb 500 r.status_code
    then retry error (pos (2 ^ (attempt - 1)))
    else stop (cloudflare error)

stop_with : Result CloudflareEmailError → Verdict
stop_with (ok error) = stop (cloudflare error)
stop_with (err e) = stop e

-- An answer with status 200.
unfoldable pub judge_ok : Option Fields → Verdict
unfolding stop_with
judge_ok payload =
    if is_success payload
    then done (result_of payload)
    else stop_with (described without_success 200 payload false)

-- An answer with another status.
unfoldable pub judge_error : ℕ → Response → Verdict
unfolding judge_refusal
judge_error attempt r =
    elim (described refused r.status_code (parse_json r) (is_credential_status r.status_code)) [
      | ok error ↦ judge_refusal attempt r error
      | err e ↦ stop e
    ]

-- One round of the loop of `_post`, without its effects.
unfoldable pub judge : ℕ → Outcome → Verdict
unfolding judge_ok judge_error
judge attempt (failed text) = retry (plain (unreachable text)) (pos (2 ^ (attempt - 1)))
judge attempt (answered r) =
    if r.status_code == 200 then judge_ok (parse_json r) else judge_error attempt r

-- `_sleep`: `time.sleep` refuses a negative length.
unfoldable pub sleep : ℤ → State → Result (Unit {0}) × State
sleep (pos n) s = (ok tt, record s { sleeps = n ∷ s.sleeps })
sleep (negsuc n) s = (err (value_error (codes "sleep length must be non-negative")), s)

-- The pause after an attempt that is not the last.
unfoldable pub pause : ℕ → ℤ → State → Result (Unit {0}) × State
unfolding sleep
pause attempt delay s =
    if ltb attempt max_attempts then sleep (min_ℤ delay (pos max_retry_after)) s else (ok tt, s)

-- The raise behind the loop; with no attempt there would be no last error.
unfoldable pub give_up : Option CloudflareEmailError → Exception
give_up none = attribute_error
give_up (some last) = cloudflare (record {
  message = giving_up last.message;
  status = last.status;
  code = last.code;
  fatal = false;
})

unfoldable pub remember : CloudflareEmailError → State → State
remember error s = record s { session = record s.session { fatal_error = some error } }

abbrev pub Network : Type 0
Network = List Request → Outcome

unfoldable pub http_post : Bytes → State → State
http_post body s = record s {
  requests =
      record { url = s.session.send_url; body = body; authorization = s.session.authorization }
      ∷ s.requests;
}

module _ (network : Network) where
  -- The loop of `_post`, by the attempts left.
  unfoldable pub attempts :
      ℕ → ℕ → Option CloudflareEmailError → Bytes → State → Result Json × State
  attempts zero attempt last body s = (err (give_up last), s)
  attempts (suc left) attempt last body s =
      let s' = http_post body s in
      elim (judge attempt (network s'.requests)) [
        | done r ↦ (ok r, s')
        | stop e ↦ (err e, s')
        | fatal error ↦ (err (cloudflare error), remember error s')
        | retry error delay ↦
            let (paused, s'') = pause attempt delay s' in
            elim paused [
              | ok _ ↦ attempts left (attempt + 1) (some error) body s''
              | err e ↦ (err e, s'')
            ]
      ]

  -- `_post`.
  unfoldable pub post : Bytes → State → Result Json × State
  unfolding attempts judge http_post pause remember give_up
  post body s = attempts max_attempts 1 none body s
