-- ===== src/Api/Session/Retry.antt =====
-- The retry matrix: how much one `_post` does, and what ends it.
use odoo_cloudflare_email.Prelude.{
  ℕ, zero, suc, ◌+◌, ◌-◌, ◌*◌, ◌≤◌, ◌≡◌, refl, ap, ap₂, ◌∙◌, Option, none, some, List, [], ◌∷◌, ℤ,
  pos, negsuc, ltb, if◌then◌else◌, arith, ◌⊎◌, inl, inr,
}
use odoo_cloudflare_email.Text.{Bytes}
use odoo_cloudflare_email.Json.{Json}
use odoo_cloudflare_email.Errors.{CloudflareEmailError, Result}
use odoo_cloudflare_email.Api.Session.Run.{
  Run, exhausted, finished, stopped, barred, interrupted, resumed, attempts-Run,
}
use odoo_cloudflare_email.Api.Session.{
  Request, Session, State, Network, sleep, pause, remember, http_post, post, max_attempts,
}

-- The seconds slept.
abbrev pub slept : List ℕ → ℕ
slept [] = 0
slept (n ∷ ns) = n + slept ns

-- The same request, some times more.
abbrev pub again : ℕ → Request → List Request → List Request
again zero r rs = rs
again (suc n) r rs = r ∷ again n r rs

pub again_last : (n : ℕ) (r : Request) (rs : List Request) → again n r (r ∷ rs) ≡ r ∷ again n r rs
again_last zero r rs = refl
again_last (suc n) r rs = ap (λ (l : List Request). r ∷ l) (again_last n r rs)

abbrev pub request_of : Bytes → State → Request
request_of body s = record {
  url = s.session.send_url;
  body = body;
  authorization = s.session.authorization;
}

-- One pause: it sleeps ten seconds at most, and only before another attempt.
pub pause_bounds :
    (attempt : ℕ) (delay : ℤ) (s : State)
    → (slept (pause attempt delay s).1.sleeps
        ≤ slept s.sleeps + (if ltb attempt max_attempts then 10 else 0))
      × ((pause attempt delay s).1.requests ≡ s.requests)
      × ((pause attempt delay s).1.session ≡ s.session)
unfolding pause sleep
pause_bounds attempt (pos n) s = ground arith
pause_bounds attempt (negsuc n) s = ground arith

pub http_post_facts :
    (body : Bytes) (s : State)
    → ((http_post body s).requests ≡ request_of body s ∷ s.requests)
      × ((http_post body s).sleeps ≡ s.sleeps)
      × ((http_post body s).session ≡ s.session)
unfolding http_post
http_post_facts body s = (refl, refl, refl)

-- What the loop with `left` attempts left has done when it ends.
pub record IsSpent (left : ℕ) (body : Bytes) (s s' : State) : Type 0 where
  pub rounds : ℕ
  pub some_round : (left ≡ 0) ⊎ (1 ≤ rounds)
  pub few : rounds ≤ left
  pub sent : s'.requests ≡ again rounds (request_of body s) s.requests
  pub rested : slept s'.sleeps ≤ slept s.sleeps + 10 * (left - 1)

-- The end of a round behind which no attempt is made.
IsSpent-end :
    (left : ℕ) (body : Bytes) (s s' : State)
    → s'.requests ≡ (http_post body s).requests
    → slept s'.sleeps ≤ slept s.sleeps + 10 * left
    → IsSpent (suc left) body s s'
IsSpent-end left body s s' e f = record {
  rounds = 1;
  some_round = inr (omega arith);
  few = omega arith;
  sent = e ∙ (http_post_facts body s).0;
  rested = omega (arith, f);
}

module _ (network : Network) (body : Bytes) where
  Run-IsSpent :
      (left attempt : ℕ) (last : Option CloudflareEmailError) (s : State) (r : Result Json)
      (s' : State)
      → attempt + left ≡ max_attempts + 1
      → Run network body left attempt last s r s'
      → IsSpent left body s s'
  Run-IsSpent left attempt last s r s' e exhausted = record {
    rounds = 0;
    some_round = inl refl;
    few = omega arith;
    sent = refl;
    rested = omega arith;
  }
  Run-IsSpent (suc left) attempt last s r s' e (finished v) =
      IsSpent-end left body s s' refl (omega (arith, ap slept (http_post_facts body s).1))
  Run-IsSpent (suc left) attempt last s r s' e (stopped v) =
      IsSpent-end left body s s' refl (omega (arith, ap slept (http_post_facts body s).1))
  Run-IsSpent (suc left) attempt last s r s' e (barred v) =
      unfold remember in
      IsSpent-end left body s s' refl (omega (arith, ap slept (http_post_facts body s).1))
  Run-IsSpent (suc left) attempt last s r s' e (interrupted {delay = delay} v p) =
      let (slept_le, requests, session) = pause_bounds attempt delay (http_post body s) in
      IsSpent-end left body s _ requests
        (ground (arith, slept_le, ap slept (http_post_facts body s).1))
  Run-IsSpent (suc left) attempt last s r s' e (resumed {error = error} {delay = delay} v p run) =
      let (slept_le, requests, session) = pause_bounds attempt delay (http_post body s) in
      let ih =
        Run-IsSpent left (attempt + 1) (some error) (pause attempt delay (http_post body s)).1 r s'
          (omega arith) run in
      let same : request_of body (pause attempt delay (http_post body s)).1 ≡ request_of body s =
        ap
          (λ (x : Session). record {
            url = x.send_url;
            body = body;
            authorization = x.authorization;
          })
          (session ∙ (http_post_facts body s).2) in
      record {
        rounds = suc ih.rounds;
        some_round = inr (omega arith);
        few = omega (arith, ih.few);
        sent =
            ih.sent
            ∙ ap₂ (again ih.rounds) same (requests ∙ (http_post_facts body s).0)
            ∙ again_last ih.rounds _ _;
        rested = ground (arith, slept_le, ih.rested, ap slept (http_post_facts body s).1);
      }

  -- One call of `_post` sends the same request one to three times and sleeps at most 20 seconds in
  -- all, whatever the network answers.
  pub post-IsSpent : (s : State) → IsSpent 3 body s (post network body s).1
  unfolding post
  post-IsSpent s =
      Run-IsSpent max_attempts 1 none s _ _ refl (attempts-Run network body max_attempts 1 none s)
