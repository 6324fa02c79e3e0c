-- ===== src/Api/Session/Memory.antt =====
-- A `_post` that returns was accepted; one that raises a fatal error remembers it.
use odoo_cloudflare_email.Prelude.{
  ℕ, suc, ◌+◌, ◌≡◌, refl, ◌∙◌, true, false, Option, none, some, ◌⊎◌, inl, inr, arith, ℤ, pos,
  negsuc,
}
use odoo_cloudflare_email.Text.{Bytes}
use odoo_cloudflare_email.Json.{Json}
use odoo_cloudflare_email.Errors.{
  CloudflareEmailError, Exception, cloudflare, Result, ok, err, is_fatal,
}
use odoo_cloudflare_email.Api.Response.{
  Response, answered, parse_json, is_success, result_of, is_credential_status,
}
use odoo_cloudflare_email.Api.Session.{
  State, Network, pause, sleep, give_up, remember, http_post, post, max_attempts,
}
use odoo_cloudflare_email.Api.Session.Run.{
  Run, exhausted, finished, stopped, barred, interrupted, resumed, attempts-Run,
}
use odoo_cloudflare_email.Api.Session.Retry.{http_post_facts, pause_bounds}
use odoo_cloudflare_email.Api.Session.Endings.{judge-done, judge-fatal, judge-stop}

give_up-fatal : (last : Option CloudflareEmailError) → is_fatal (give_up last) ≡ false
unfolding give_up
give_up-fatal none = refl
give_up-fatal (some e) = refl

pause-fatal :
    (attempt : ℕ) (delay : ℤ) (s : State) (x : Exception)
    → (pause attempt delay s).0 ≡ err x
    → is_fatal x ≡ false
unfolding pause sleep
pause-fatal attempt (pos n) s x e = ground arith
pause-fatal attempt (negsuc n) s x e = ground arith

module _ (network : Network) (body : Bytes) where
  -- Success: the last request was answered with status 200 and a true `success`.
  pub record IsAccepted (r : Json) (s s' : State) : Type 0 where
    pub response : Response
    pub last : network s'.requests ≡ answered response
    pub status_ok : response.status_code ≡ 200
    pub success : is_success (parse_json response) ≡ true
    pub value : r ≡ result_of (parse_json response)
    pub kept : s'.session ≡ s.session

  -- A fatal error: the last request was answered with 401 or 403, and the session remembers it.
  pub record IsBarred (error : CloudflareEmailError) (s' : State) : Type 0 where
    pub response : Response
    pub last : network s'.requests ≡ answered response
    pub credentials : (response.status_code ≡ 401) ⊎ (response.status_code ≡ 403)
    pub flagged : error.fatal ≡ true
    pub status : error.status ≡ some response.status_code
    pub remembered : s'.session.fatal_error ≡ some error

  -- How the loop ends, by its result: accepted, barred, or an error that changes no session.
  abbrev pub Ending : State → Result Json → State → Type 0
  Ending s (ok r) s' = IsAccepted r s s'
  Ending s (err x) s' =
      ((error : CloudflareEmailError) × (x ≡ cloudflare error) × IsBarred error s')
      ⊎ ((is_fatal x ≡ false) × (s'.session ≡ s.session))

  Ending-session :
      (s t : State) (r : Result Json) (s' : State)
      → t.session ≡ s.session
      → Ending t r s'
      → Ending s r s'
  Ending-session s t (ok r) s' e a = record {
    response = a.response;
    last = a.last;
    status_ok = a.status_ok;
    success = a.success;
    value = a.value;
    kept = a.kept ∙ e;
  }
  Ending-session s t (err x) s' e (inl barred_end) = inl barred_end
  Ending-session s t (err x) s' e (inr (plain_end, kept)) = inr (plain_end, kept ∙ e)

  credential_cases :
      (status : ℕ) → is_credential_status status ≡ true → (status ≡ 401) ⊎ (status ≡ 403)
  credential_cases status e = ground arith

  Run-Ending :
      (left attempt : ℕ) (last : Option CloudflareEmailError) (s : State) (r : Result Json)
      (s' : State)
      → Run network body left attempt last s r s'
      → Ending s r s'
  Run-Ending left attempt last s r s' exhausted = inr (give_up-fatal last, refl)
  Run-Ending (suc left) attempt last s r s' (finished {r = value} v) =
      let (response, o, status, success, e) = judge-done attempt _ value v in
      record {
        response = response;
        last = o;
        status_ok = status;
        success = success;
        value = e;
        kept = (http_post_facts body s).2;
      }
  Run-Ending (suc left) attempt last s r s' (stopped {e = x} v) =
      inr (judge-stop attempt _ x v, (http_post_facts body s).2)
  Run-Ending (suc left) attempt last s r s' (barred {error = error} v) =
      let (response, o, cred, flag, status) = judge-fatal attempt _ error v in
      unfold remember in
      inl (
        error,
        refl,
        record {
          response = response;
          last = o;
          credentials = credential_cases response.status_code cred;
          flagged = flag;
          status = status;
          remembered = refl;
        },
      )
  Run-Ending (suc left) attempt last s r s' (interrupted {e = x} {delay = delay} v p) = inr (
    pause-fatal attempt delay (http_post body s) x p,
    (pause_bounds attempt delay (http_post body s)).2 ∙ (http_post_facts body s).2,
  )
  Run-Ending (suc left) attempt last s r s' (resumed {error = error} {delay = delay} v p run) =
      Ending-session s (pause attempt delay (http_post body s)).1 r s'
        ((pause_bounds attempt delay (http_post body s)).2 ∙ (http_post_facts body s).2)
        (Run-Ending left (attempt + 1) (some error) (pause attempt delay (http_post body s)).1 r s'
          run)

  -- How `_post` ends, whatever the network answers. It returns only when its last request was
  -- answered with status 200 and a true `success`, and then returns the `result` of that answer.
  -- It raises a fatal error only when its last request was answered with 401 or 403, and then the
  -- session remembers that error. Every other end leaves the session as it was.
  pub post-Ending : (s : State) → Ending s (post network body s).0 (post network body s).1
  unfolding post
  post-Ending s =
      Run-Ending max_attempts 1 none s _ _ (attempts-Run network body max_attempts 1 none s)
