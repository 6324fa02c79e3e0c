-- ===== src/Api/Session/Endings.antt =====
-- What the result of a `_post` says about the answers of the network.
use odoo_cloudflare_email.Prelude.{
  ℕ, ◌≡◌, ◌≢◌, refl, sym, ◌∙◌, Bool, true, false, Option, some, ◌==◌, arith, inl, inr, Bool-cases,
}
use odoo_cloudflare_email.Json.{Json, Fields, arr, obj, nil, cons}
use odoo_cloudflare_email.Errors.{
  Description, Message, CloudflareEmailError, Exception, refused, without_success, ok, err,
  Result-cases, is_fatal,
}
use odoo_cloudflare_email.Api.Response.{
  Response, Outcome, answered, failed, parse_json, is_success, result_of, is_credential_status,
  described, describe, first_code, details, head_code, errors_of,
}
use odoo_cloudflare_email.Api.Session.{
  done, stop, fatal, judge, judge_refusal, judge_ok, judge_error,
}

pub described_lem :
    (message : Description → Message) (status : ℕ) (payload : Option Fields) (f : Bool)
    (e : CloudflareEmailError)
    → described message status payload f ≡ ok e
    → (e.fatal ≡ f) × (e.status ≡ some status)
unfolding described
described_lem message status payload f e h = ground arith

details-err : (v : Json) (x : Exception) → details v ≡ err x → is_fatal x ≡ false
unfolding details
details-err (arr vs) x h = cc
details-err v x h = ground arith

head_code-err : (v : Json) (x : Exception) → head_code v ≡ err x → is_fatal x ≡ false
unfolding head_code
head_code-err (arr nil) x h = cc
head_code-err (arr (cons (obj fs) vs)) x h = cc
head_code-err v x h = ground arith

-- The exceptions of the two parts are Python's own.
describe-err :
    (status : ℕ) (payload : Option Fields) (x : Exception)
    → describe status payload ≡ err x
    → is_fatal x ≡ false
unfolding describe
describe-err status payload x h = ground (arith, details-err (errors_of payload))

first_code-err :
    (payload : Option Fields) (x : Exception) → first_code payload ≡ err x → is_fatal x ≡ false
unfolding first_code
first_code-err payload x h = head_code-err (errors_of payload) x h

described-err :
    (message : Description → Message) (status : ℕ) (payload : Option Fields) (f : Bool)
    (x : Exception)
    → described message status payload f ≡ err x
    → is_fatal x ≡ false
unfolding described
described-err message status payload f x h =
    ground (arith, describe-err status payload, first_code-err payload)

pub judge-done :
    (attempt : ℕ) (o : Outcome) (r : Json)
    → judge attempt o ≡ done r
    → (response : Response) × (o ≡ answered response)
      × (response.status_code ≡ 200)
      × (is_success (parse_json response) ≡ true)
      × (r ≡ result_of (parse_json response))
unfolding judge
judge-done attempt (failed text) r e = cc
judge-done attempt (answered response) r e =
    (response, refl, ground arith, ground arith, ground arith)

judge_refusal-fatal :
    (attempt : ℕ) (r : Response) (error found : CloudflareEmailError)
    → judge_refusal attempt r error ≡ fatal found
    → (error ≡ found) × (error.fatal ≡ true)
unfolding judge_refusal
judge_refusal-fatal attempt r error found e = (ground arith, ground arith)

judge_refusal-stop :
    (attempt : ℕ) (r : Response) (error : CloudflareEmailError) (x : Exception)
    → judge_refusal attempt r error ≡ stop x
    → is_fatal x ≡ false
unfolding judge_refusal
judge_refusal-stop attempt r error x e = ground arith

-- Which refusals the loop remembers.
judge_error-fatal :
    (attempt : ℕ) (r : Response) (error : CloudflareEmailError)
    → judge_error attempt r ≡ fatal error
    → (is_credential_status r.status_code ≡ true)
      × (error.fatal ≡ true)
      × (error.status ≡ some r.status_code)
unfolding judge_error
judge_error-fatal attempt r error e =
    let cred = is_credential_status r.status_code in
    elim (Result-cases (described refused r.status_code (parse_json r) cred)) [
      | inl (found, d) ↦
          let (same, fatal_found) =
            judge_refusal-fatal attempt r found error (rw (d, judge_error) at e) in
          let (flag, status) = described_lem refused r.status_code (parse_json r) cred found d in
          (sym flag ∙ fatal_found, rw (← same) fatal_found, rw (← same) status)
      | inr (x, d) ↦ absurd (cc (rw (d, judge_error) at e))
    ]

judge_error-stop :
    (attempt : ℕ) (r : Response) (x : Exception)
    → judge_error attempt r ≡ stop x
    → is_fatal x ≡ false
unfolding judge_error
judge_error-stop attempt r x e =
    let cred = is_credential_status r.status_code in
    elim (Result-cases (described refused r.status_code (parse_json r) cred)) [
      | inl (found, d) ↦ judge_refusal-stop attempt r found x (rw (d, judge_error) at e)
      | inr (y, d) ↦
          described-err refused r.status_code (parse_json r) cred x
            (d ∙ (cc (rw (d, judge_error) at e)))
    ]

judge_ok-stop :
    (payload : Option Fields) (x : Exception) → judge_ok payload ≡ stop x → is_fatal x ≡ false
unfolding judge_ok
judge_ok-stop payload x e = elim (Result-cases (described without_success 200 payload false)) [
  | inl (found, d) ↦ ground (arith, described_lem without_success 200 payload false found d)
  | inr (y, d) ↦ ground (arith, described-err without_success 200 payload false y d)
]

judge_ok-fatal :
    (payload : Option Fields) (error : CloudflareEmailError) → judge_ok payload ≢ fatal error
unfolding judge_ok
judge_ok-fatal payload error e = ground arith

pub judge-fatal :
    (attempt : ℕ) (o : Outcome) (error : CloudflareEmailError)
    → judge attempt o ≡ fatal error
    → (response : Response) × (o ≡ answered response)
      × (is_credential_status response.status_code ≡ true)
      × (error.fatal ≡ true)
      × (error.status ≡ some response.status_code)
unfolding judge
judge-fatal attempt (failed text) error e = cc
judge-fatal attempt (answered response) error e = elim (Bool-cases (response.status_code == 200)) [
  | inl good ↦ absurd (judge_ok-fatal (parse_json response) error (rw good at e))
  | inr bad ↦
      let (cred, flag, status) = judge_error-fatal attempt response error (rw bad at e) in
      (response, refl, cred, flag, status)
]

pub judge-stop :
    (attempt : ℕ) (o : Outcome) (x : Exception) → judge attempt o ≡ stop x → is_fatal x ≡ false
unfolding judge
judge-stop attempt (failed text) x e = cc
judge-stop attempt (answered response) x e = elim (Bool-cases (response.status_code == 200)) [
  | inl good ↦ judge_ok-stop (parse_json response) x (rw good at e)
  | inr bad ↦ judge_error-stop attempt response x (rw bad at e)
]
