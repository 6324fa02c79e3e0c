-- ===== src/Api/Session/Run.antt =====
-- The loop of `_post` as a relation, one constructor for each way a round can go.
use odoo_cloudflare_email.Prelude.{ℕ, zero, suc, ◌+◌, ◌≡◌, refl, Option, some, ℤ, ◌⊎◌, inl, inr}
use odoo_cloudflare_email.Text.{Bytes}
use odoo_cloudflare_email.Json.{Json}
use odoo_cloudflare_email.Errors.{CloudflareEmailError, Exception, cloudflare, Result, ok, err}
use odoo_cloudflare_email.Api.Response.{Outcome}
use odoo_cloudflare_email.Api.Session.{
  State, Verdict, done, stop, fatal, retry, Network, judge, pause, give_up, remember, http_post,
  attempts,
}

module _ (network : Network) (body : Bytes) where
  -- The outcome of the next request.
  abbrev pub answer : State → Outcome
  answer s = network (http_post body s).requests

  pub data Run : ℕ → ℕ → Option CloudflareEmailError → State → Result Json → State → Type 0 where
    exhausted :
        {attempt : ℕ} {last : Option CloudflareEmailError} {s : State}
        → Run zero attempt last s (err (give_up last)) s
    finished :
        {left attempt : ℕ} {last : Option CloudflareEmailError} {s : State} {r : Json}
        → judge attempt (answer s) ≡ done r
        → Run (suc left) attempt last s (ok r) (http_post body s)
    stopped :
        {left attempt : ℕ} {last : Option CloudflareEmailError} {s : State} {e : Exception}
        → judge attempt (answer s) ≡ stop e
        → Run (suc left) attempt last s (err e) (http_post body s)
    barred :
        {left attempt : ℕ} {last : Option CloudflareEmailError} {s : State}
        {error : CloudflareEmailError}
        → judge attempt (answer s) ≡ fatal error
        → Run (suc left) attempt last s (err (cloudflare error)) (remember error (http_post body s))
    interrupted :
        {left attempt : ℕ} {last : Option CloudflareEmailError} {s : State} {e : Exception}
        {error : CloudflareEmailError} {delay : ℤ}
        → judge attempt (answer s) ≡ retry error delay
        → (pause attempt delay (http_post body s)).0 ≡ err e
        → Run (suc left) attempt last s (err e) (pause attempt delay (http_post body s)).1
    resumed :
        {left attempt : ℕ} {last : Option CloudflareEmailError} {s s' : State} {r : Result Json}
        {error : CloudflareEmailError} {delay : ℤ}
        → judge attempt (answer s) ≡ retry error delay
        → (pause attempt delay (http_post body s)).0 ≡ ok tt
        → Run left (attempt + 1) (some error) (pause attempt delay (http_post body s)).1 r s'
        → Run (suc left) attempt last s r s'

  Verdict-cases :
      (v : Verdict)
      → ((r : Json) × (v ≡ done r))
        ⊎ (((e : Exception) × (v ≡ stop e))
            ⊎ (((error : CloudflareEmailError) × (v ≡ fatal error))
                ⊎ ((error : CloudflareEmailError) × (delay : ℤ) × (v ≡ retry error delay))))
  Verdict-cases (done r) = inl (r, refl)
  Verdict-cases (stop e) = inr (inl (e, refl))
  Verdict-cases (fatal error) = inr (inr (inl (error, refl)))
  Verdict-cases (retry error delay) = inr (inr (inr (error, delay, refl)))

  Result-cases : (r : Result (Unit {0})) → (r ≡ ok tt) ⊎ ((e : Exception) × (r ≡ err e))
  Result-cases (ok u) = inl refl
  Result-cases (err e) = inr (e, refl)

  -- Each run of the function is a run of the relation.
  pub attempts-Run :
      (left attempt : ℕ) (last : Option CloudflareEmailError) (s : State)
      → Run left attempt last s
          (attempts network left attempt last body s).0
          (attempts network left attempt last body s).1
  unfolding attempts
  attempts-Run zero attempt last s = exhausted
  attempts-Run (suc left) attempt last s = elim (Verdict-cases (judge attempt (answer s))) [
    | inl (r, e) ↦ rw (e, attempts) (finished e)
    | inr (inl (x, e)) ↦ rw (e, attempts) (stopped e)
    | inr (inr (inl (error, e))) ↦ rw (e, attempts) (barred e)
    | inr (inr (inr (error, delay, e))) ↦
        elim (Result-cases (pause attempt delay (http_post body s)).0) [
          | inl p ↦
              rw (e, attempts)
                (rw (p, attempts)
                  (resumed e p (
                    attempts-Run left (attempt + 1) (some error)
                      (pause attempt delay (http_post body s)).1)))
          | inr (x, p) ↦ rw (e, attempts) (rw (p, attempts) (interrupted e p))
        ]
  ]
