-- ===== src/Tests/Network.antt =====
-- Requests against concrete networks.
use odoo_cloudflare_email.Prelude.{
  ℕ, ◌<◌, ◌≡◌, ◌+◌, refl, true, false, none, some, List, [], ◌∷◌, arith, map, length, ◌==◌,
  if◌then◌else◌, negsuc, zero, suc,
}
use odoo_cloudflare_email.Text.{Text, Bytes, codes, text_eq, strip}
use odoo_cloudflare_email.Json.{bool, str, obj, end, field, null, get}
use odoo_cloudflare_email.Errors.{CloudflareEmailError, cloudflare, refused, ok, err}
use odoo_cloudflare_email.Samples.{ascii_host, split_commas}
use odoo_cloudflare_email.Text.{contains, starts_with, byte_length, join}
use odoo_cloudflare_email.Text.Dict.{lookup, put}
use odoo_cloudflare_email.Api.Recipients.{split_recipients, address_of}
use odoo_cloudflare_email.Api.MessageIds.{find_ids}
use odoo_cloudflare_email.Api.Headers.{
  passthrough_headers, too_long, collect, is_allowed, allowed_headers, canonical_in, header_size,
}
use odoo_cloudflare_email.Api.Content.{extract_content}
use odoo_cloudflare_email.Api.Payload.{build_payload, encode_body}
use odoo_cloudflare_email.Api.Mime.{EmailMessage, single, header}
use odoo_cloudflare_email.Api.Response.{
  Response, answered, failed, parse_json, described, result_of, retry_after,
}
use odoo_cloudflare_email.Api.Session.{State, Network, post, http_post}
use odoo_cloudflare_email.Api.Session.Retry.{IsSpent, post-IsSpent, request_of, again}
use odoo_cloudflare_email.Api.Session.Memory.{Ending, post-Ending}
use odoo_cloudflare_email.Api.Session.Send.{send_message, send_all, refused_after}
use odoo_cloudflare_email.Api.Session.Batch.{send_all-fails_fast}
use odoo_cloudflare_email.Api.Session.Breaker.{Moves, send_all-Moves}
use odoo_cloudflare_email.Api.Session.Delivery.{
  IsTransient, IsSuccess, post-delivers, post-negative_retry_after, sleep_error,
}

abbrev pub start : State
start = record {
  session = record {
    account_id = codes "acc";
    from_filter = none;
    smtp_from = none;
    mail_server_name = codes "cf";
    send_url = codes "https://api/acc";
    authorization = codes "Bearer t";
    fatal_error = none;
  };
  requests = [];
  sleeps = [];
}

abbrev body : Bytes
body = codes "{}"

abbrev pub accepted : Response
accepted = record {
  status_code = 200;
  json = some (
      obj (
        field (codes "success") (bool true)
          (field (codes "result") (obj (field (codes "message_id") (str (codes "m")) end)) end)));
  retry_after = none;
}

abbrev status_only : ℕ → Response
status_only n = record { status_code = n; json = none; retry_after = none }

-- Two lost connections, then an acceptance.
abbrev pub flaky : Network
flaky requests = if length requests == 3 then answered accepted else failed (codes "reset")

post-flaky : (post flaky body start).0 ≡ ok (result_of (parse_json accepted))
unfolding post parse_json get text_eq
post-flaky = refl

post-IsSpent_example : IsSpent 3 body start (post flaky body start).1
post-IsSpent_example = post-IsSpent flaky body start

post-Ending_example : Ending flaky body start (post flaky body start).0 (post flaky body start).1
post-Ending_example = post-Ending flaky body start

flaky_before :
    (j : ℕ) → j < 2 → IsTransient (flaky (again (suc j) (request_of body start) start.requests))
flaky_before zero h = tt
flaky_before (suc zero) h = tt
flaky_before (suc (suc j)) h = absurd (omega arith)

flaky_now :
    IsSuccess
      (flaky (again 3 (request_of body start) start.requests))
      (result_of (parse_json accepted))
unfolding parse_json get text_eq
flaky_now = record {
  response = accepted;
  is_answer = refl;
  status = refl;
  success = refl;
  value = refl;
}

post-delivers_example : (post flaky body start).0 ≡ ok (result_of (parse_json accepted))
post-delivers_example =
    post-delivers flaky body 2 start (result_of (parse_json accepted)) (omega arith) flaky_before
      flaky_now

abbrev early : Response
early = record { status_code = 429; json = none; retry_after = some (codes "-1") }

abbrev early_error : CloudflareEmailError
early_error = record {
  message = refused (record { status = 429; details = [] });
  status = some 429;
  code = null;
  fatal = false;
}

early-described : described refused 429 (parse_json early) false ≡ ok early_error
unfolding described parse_json
early-described = refl

early_retry_after : retry_after early ≡ some (negsuc 0)
unfolding retry_after strip
early_retry_after = refl

abbrev always_early : Network
always_early requests = answered early

post-negative_retry_after_example :
    post always_early body start ≡ (err sleep_error, http_post body start)
post-negative_retry_after_example =
    post-negative_retry_after always_early body start early early_error 0 refl refl early-described
      early_retry_after

-- What a test of a whole send computes with.
unfoldable pub outbound : Unit {0}
unfolding send_message build_payload split_recipients passthrough_headers extract_content
    encode_body post described parse_json split_commas header text_eq strip contains address_of
    too_long find_ids lookup collect is_allowed allowed_headers starts_with canonical_in put
    byte_length join header_size get
outbound = tt

abbrev pub note : EmailMessage
note = record {
  headers = (codes "From", codes "me@x") ∷ (codes "To", codes "you@x") ∷ [];
  body = single (record {
    id = 1;
    content_type = codes "text/plain";
    filename = none;
    content_id = none;
    disposition = none;
    start = none;
    content = codes "hi";
    decoded = none;
    message_bytes = [];
  });
}

abbrev barred : Network
barred requests = answered (status_only 401)

abbrev token_error : CloudflareEmailError
token_error = record {
  message = refused (record { status = 401; details = [] });
  status = some 401;
  code = null;
  fatal = true;
}

note-barred :
    (send_message ascii_host barred note (codes "you@x" ∷ []) start).0
    ≡ err (cloudflare token_error)
unfolding outbound
note-barred = refl

send_all-fails_fast_example :
    (f : CloudflareEmailError) × (send_all ascii_host barred
        ((note, codes "it@x" ∷ []) ∷ [])
        (send_message ascii_host barred note (codes "you@x" ∷ []) start).1
      ≡ (
        map {A = EmailMessage × List Text}
            (λ _. err (refused_after f))
            ((note, codes "it@x" ∷ []) ∷ []),
        (send_message ascii_host barred note (codes "you@x" ∷ []) start).1,
      ))
send_all-fails_fast_example =
    send_all-fails_fast ascii_host barred note (codes "you@x" ∷ []) start (cloudflare token_error)
      ((note, codes "it@x" ∷ []) ∷ []) note-barred refl

abbrev two_notes : List (EmailMessage × List Text)
two_notes = (note, codes "you@x" ∷ []) ∷ (note, codes "it@x" ∷ []) ∷ []

two_notes-barred : length (send_all ascii_host barred two_notes start).1.requests ≡ 1
unfolding outbound send_all
two_notes-barred = refl

send_all-Moves_example :
    (n : ℕ) × Moves none
      (send_all ascii_host barred two_notes start).0
      n
      (send_all ascii_host barred two_notes start).1.session.fatal_error
    × (length (send_all ascii_host barred two_notes start).1.requests ≡ n + 0)
    × (length (send_all ascii_host barred two_notes start).0 ≡ 2)
send_all-Moves_example = send_all-Moves ascii_host barred two_notes start
