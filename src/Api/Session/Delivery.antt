-- ===== src/Api/Session/Delivery.antt =====
-- When `_post` succeeds: the retries reach an answer that accepts the message. And one that stops
-- them short: a `Retry-After` below zero.
use mathlib.Core.Path.{subst}
use odoo_cloudflare_email.Prelude.{
  ℕ, zero, suc, ◌+◌, ◌-◌, ◌^◌, ◌≤◌, ◌<◌, ◌≡◌, refl, ap, ap₂, sym, ◌∙◌, true, false, Option, none,
  some, ◌∷◌, ℤ, pos, negsuc, neg_part, arith, ◌⊎◌, inl, inr,
}
use odoo_cloudflare_email.Text.{Bytes, codes}
use odoo_cloudflare_email.Json.{Json}
use odoo_cloudflare_email.Errors.{
  CloudflareEmailError, Exception, value_error, refused, Result, ok, err,
}
use odoo_cloudflare_email.Api.Response.{
  Response, Outcome, answered, failed, parse_json, is_success, result_of, described, retry_after,
}
use odoo_cloudflare_email.Api.Session.{
  Session, State, done, retry, Network, judge, judge_error, judge_refusal, judge_ok, delay_or,
  sleep, pause, http_post, attempts, post, max_attempts,
}
use odoo_cloudflare_email.Api.Session.Retry.{
  again, again_last, request_of, http_post_facts, pause_bounds,
}
use odoo_cloudflare_email.Api.Session.Endings.{described_lem}

-- The answers after which the documentation of `_post` promises a retry, with what it leaves
-- out: the errors of the answer can be described, and its `Retry-After` is not negative.
abbrev pub IsTransient : Outcome → Type 0
IsTransient (failed text) = Unit {0}
IsTransient (answered r) =
    ((error : CloudflareEmailError) × (described refused r.status_code (parse_json r) false
        ≡ ok error))
    × (((r.status_code ≡ 429) × (neg_part (delay_or (retry_after r) 1) ≡ 0))
        ⊎ (500 ≤ r.status_code))

-- An answer that accepts the message.
pub record IsSuccess (o : Outcome) (result : Json) : Type 0 where
  pub response : Response
  pub is_answer : o ≡ answered response
  pub status : response.status_code ≡ 200
  pub success : is_success (parse_json response) ≡ true
  pub value : result_of (parse_json response) ≡ result

delay_or_sign : (o : Option ℤ) (m n : ℕ) → neg_part (delay_or o m) ≡ 0 → neg_part (delay_or o n) ≡ 0
delay_or_sign none m n e = refl
delay_or_sign (some (pos zero)) m n e = refl
delay_or_sign (some (pos (suc k))) m n e = refl
delay_or_sign (some (negsuc k)) m n e = e

judge_error-transient :
    (attempt : ℕ) (r : Response)
    → IsTransient (answered r)
    → (error : CloudflareEmailError) × (delay : ℤ) × (judge_error attempt r ≡ retry error delay)
      × (neg_part delay ≡ 0)
unfolding judge_error judge_refusal
judge_error-transient attempt r ((error, d), inl (status, delay)) =
    let flag = (described_lem refused r.status_code (parse_json r) false error d).0 in
    (
      error,
      delay_or (retry_after r) (2 ^ attempt),
      ground (arith, d, flag, status),
      delay_or_sign (retry_after r) 1 (2 ^ attempt) delay,
    )
judge_error-transient attempt r ((error, d), inr status) =
    let flag = (described_lem refused r.status_code (parse_json r) false error d).0 in
    (error, pos (2 ^ (attempt - 1)), ground (arith, d, flag, status), refl)

judge-transient :
    (attempt : ℕ) (o : Outcome)
    → IsTransient o
    → (error : CloudflareEmailError) × (delay : ℤ) × (judge attempt o ≡ retry error delay)
      × (neg_part delay ≡ 0)
unfolding judge
judge-transient attempt (failed text) t = (_, _, refl, refl)
judge-transient attempt (answered r) t =
    let (error, delay, e, sign) = judge_error-transient attempt r t in
    (error, delay, ground (arith, e), sign)

judge-success :
    (attempt : ℕ) (o : Outcome) (result : Json) → IsSuccess o result → judge attempt o ≡ done result
unfolding judge judge_ok
judge-success attempt o result a = rw (a.is_answer) (ground (arith, a.status, a.success, a.value))

pause-ok :
    (attempt : ℕ) (delay : ℤ) (s : State) → neg_part delay ≡ 0 → (pause attempt delay s).0 ≡ ok tt
unfolding pause sleep
pause-ok attempt (pos n) s e = ground arith
pause-ok attempt (negsuc n) s e = absurd (omega (arith, e))

-- What `time.sleep` raises.
abbrev pub sleep_error : Exception
sleep_error = value_error (codes "sleep length must be non-negative")

judge-negative :
    (r : Response) (error : CloudflareEmailError) (n : ℕ)
    → r.status_code ≡ 429
    → described refused r.status_code (parse_json r) false ≡ ok error
    → retry_after r ≡ some (negsuc n)
    → judge 1 (answered r) ≡ retry error (negsuc n)
unfolding judge judge_error judge_refusal
judge-negative r error n status d delay =
    let flag = (described_lem refused r.status_code (parse_json r) false error d).0 in
    ground (arith, d, flag, status, delay)

pause-negative : (n : ℕ) (s : State) → pause 1 (negsuc n) s ≡ (err sleep_error, s)
unfolding pause sleep
pause-negative n s = ground arith

module _ (network : Network) (body : Bytes) where
  attempts-delivers :
      (k left attempt : ℕ) (last : Option CloudflareEmailError) (s : State) (result : Json)
      → k < left
      → ((j : ℕ) → j < k → IsTransient (network (again (suc j) (request_of body s) s.requests)))
      → IsSuccess (network (again (suc k) (request_of body s) s.requests)) result
      → (attempts network left attempt last body s).0 ≡ ok result
  unfolding attempts
  attempts-delivers k zero attempt last s result below before now = absurd (omega arith)
  attempts-delivers zero (suc left) attempt last s result below before now =
      rw (judge-success attempt _ result (rw (← (http_post_facts body s).0) at now), attempts)
  attempts-delivers (suc k) (suc left) attempt last s result below before now =
      let (error, delay, e, sign) =
        judge-transient attempt (network (http_post body s).requests)
          (rw (← (http_post_facts body s).0) at (before 0 (omega arith))) in
      let p = pause-ok attempt delay (http_post body s) sign in
      let s' = (pause attempt delay (http_post body s)).1 in
      let (_, requests, session) = pause_bounds attempt delay (http_post body s) in
      let same : request_of body s' ≡ request_of body s =
        ap
          (λ (x : Session). record {
            url = x.send_url;
            body = body;
            authorization = x.authorization;
          })
          (session ∙ (http_post_facts body s).2) in
      let shift : (j : ℕ)
          → again (suc j) (request_of body s') s'.requests
            ≡ again (suc (suc j)) (request_of body s) s.requests =
        λ j.
          ap₂ (again (suc j)) same (requests ∙ (http_post_facts body s).0)
          ∙ again_last (suc j) (request_of body s) s.requests in
      rw (e, attempts)
        (rw (p, attempts)
          (attempts-delivers k left (attempt + 1) (some error) s' result (omega arith)
            (λ j lt.
              subst (λ q. IsTransient (network q)) (sym (shift j)) (before (suc j) (omega arith)))
            (subst (λ q. IsSuccess (network q) result) (sym (shift k)) now)))

  -- If the first, the second or the third request is answered with an acceptance, and every one
  -- before it fails in a way that the code retries, `_post` returns the accepted result.
  pub post-delivers :
      (k : ℕ) (s : State) (result : Json)
      → k < 3
      → ((j : ℕ) → j < k → IsTransient (network (again (suc j) (request_of body s) s.requests)))
      → IsSuccess (network (again (suc k) (request_of body s) s.requests)) result
      → (post network body s).0 ≡ ok result
  unfolding post
  post-delivers k s result = attempts-delivers k max_attempts 1 none s result

  -- An answer with status 429 whose errors can be described and whose `Retry-After` is a negative
  -- number ends `_post` at its first request with Python's `ValueError`, which is no
  -- `CloudflareEmailError`.
  pub post-negative_retry_after :
      (s : State) (r : Response) (error : CloudflareEmailError) (n : ℕ)
      → network (request_of body s ∷ s.requests) ≡ answered r
      → r.status_code ≡ 429
      → described refused r.status_code (parse_json r) false ≡ ok error
      → retry_after r ≡ some (negsuc n)
      → post network body s ≡ (err sleep_error, http_post body s)
  unfolding post
  post-negative_retry_after s r error n o status d delay =
      let judged : judge 1 (network (http_post body s).requests) ≡ retry error (negsuc n) =
        ap (judge 1) (ap network (http_post_facts body s).0 ∙ o)
        ∙ judge-negative r error n status d delay in
      let paused = pause-negative n (http_post body s) in
      rw (judged, attempts)
        (rw (ap (λ (q : Result (Unit {0}) × State). q.0) paused)
          (ap (λ (q : Result (Unit {0}) × State). (err sleep_error, q.1)) paused))
