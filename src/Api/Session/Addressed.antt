-- ===== src/Api/Session/Addressed.antt =====
-- Where the requests of a batch go, and how large they are.
use mathlib.Core.List.{append_assoc}
use odoo_cloudflare_email.Prelude.{
  ℕ, ◌≤◌, ◌≡◌, refl, sym, ◌∙◌, ap, Option, none, some, List, [], ◌∷◌, ◌++◌, All, All-append, length,
  ltb, Bool-cases, inl, inr, not_ltb→le, ℤ,
}
use odoo_cloudflare_email.Text.{Text, Bytes}
use odoo_cloudflare_email.Json.{Json}
use odoo_cloudflare_email.Errors.{CloudflareEmailError, Result, Result-cases}
use odoo_cloudflare_email.Api.Host.{Host}
use odoo_cloudflare_email.Api.Mime.{EmailMessage}
use odoo_cloudflare_email.Api.Payload.{Payload, build_payload, encode_body}
use odoo_cloudflare_email.Api.Session.Run.{
  Run, exhausted, finished, stopped, barred, interrupted, resumed, attempts-Run,
}
use odoo_cloudflare_email.Api.Session.Retry.{pause_bounds, request_of}
use odoo_cloudflare_email.Api.Session.Send.{
  send_payload, send_fresh, send_after, send_message, send_all,
}
use odoo_cloudflare_email.Api.Session.{
  Request, Session, State, Network, pause, remember, http_post, post, max_attempts, max_body_bytes,
}

-- A request of this session, within the size limit.
pub record IsOwn (σ : Session) (r : Request) : Type 0 where
  pub address : r.url ≡ σ.send_url
  pub token : r.authorization ≡ σ.authorization
  pub small : length r.body ≤ max_body_bytes

-- From one state to another, only requests of the session were made, and its addresses stayed.
pub record IsAddressed (s s' : State) : Type 0 where
  pub same_url : s'.session.send_url ≡ s.session.send_url
  pub same_token : s'.session.authorization ≡ s.session.authorization
  pub new : List Request
  pub added : s'.requests ≡ new ++ s.requests
  pub own : All (IsOwn s.session) new

IsAddressed-refl : (s : State) → IsAddressed s s
IsAddressed-refl s = record { same_url = refl; same_token = refl; new = []; added = refl; own = tt }

IsOwn-moved :
    (s s' : State) (rs : List Request)
    → IsAddressed s s'
    → All (IsOwn s'.session) rs
    → All (IsOwn s.session) rs
IsOwn-moved s s' [] a p = tt
IsOwn-moved s s' (r ∷ rs) a (o, p) = (
  record { address = o.address ∙ a.same_url; token = o.token ∙ a.same_token; small = o.small },
  IsOwn-moved s s' rs a p,
)

IsAddressed-trans : (s s' s'' : State) → IsAddressed s s' → IsAddressed s' s'' → IsAddressed s s''
IsAddressed-trans s s' s'' a b = record {
  same_url = b.same_url ∙ a.same_url;
  same_token = b.same_token ∙ a.same_token;
  new = b.new ++ a.new;
  added =
      b.added
      ∙ ap (λ (l : List Request). b.new ++ l) a.added
      ∙ sym (append_assoc b.new a.new s.requests);
  own = All-append (IsOwn s.session) b.new a.new (IsOwn-moved s s' b.new a b.own) a.own;
}

module _ (network : Network) (body : Bytes) (small : length body ≤ max_body_bytes) where
  http_post-IsAddressed : (s : State) → IsAddressed s (http_post body s)
  unfolding http_post
  http_post-IsAddressed s = record {
    same_url = refl;
    same_token = refl;
    new = request_of body s ∷ [];
    added = refl;
    own = (record { address = refl; token = refl; small = small }, tt);
  }

  IsAddressed-pause :
      (s : State) (attempt : ℕ) (delay : ℤ)
      → IsAddressed s (pause attempt delay (http_post body s)).1
  IsAddressed-pause s attempt delay =
      let (_, requests, session) = pause_bounds attempt delay (http_post body s) in
      let a = http_post-IsAddressed s in
      record {
        same_url = ap (λ (σ : Session). σ.send_url) session ∙ a.same_url;
        same_token = ap (λ (σ : Session). σ.authorization) session ∙ a.same_token;
        new = a.new;
        added = requests ∙ a.added;
        own = a.own;
      }

  remember-IsAddressed :
      (s : State) (error : CloudflareEmailError) → IsAddressed s (remember error (http_post body s))
  unfolding http_post remember
  remember-IsAddressed s error = record {
    same_url = refl;
    same_token = refl;
    new = request_of body s ∷ [];
    added = refl;
    own = (record { address = refl; token = refl; small = small }, tt);
  }

  Run-IsAddressed :
      {left attempt : ℕ} {last : Option CloudflareEmailError} {s s' : State} {r : Result Json}
      → Run network body left attempt last s r s'
      → IsAddressed s s'
  Run-IsAddressed {s = s} exhausted = IsAddressed-refl s
  Run-IsAddressed {s = s} (finished e) = http_post-IsAddressed s
  Run-IsAddressed {s = s} (stopped e) = http_post-IsAddressed s
  Run-IsAddressed {s = s} (barred {error = error} e) = remember-IsAddressed s error
  Run-IsAddressed {s = s} (interrupted {attempt = attempt} {delay = delay} e p) =
      IsAddressed-pause s attempt delay
  Run-IsAddressed {s = s} {s' = s'} (resumed {attempt = attempt} {delay = delay} e p run) =
      IsAddressed-trans s (pause attempt delay (http_post body s)).1 s'
        (IsAddressed-pause s attempt delay) (Run-IsAddressed run)

  post-IsAddressed : (s : State) → IsAddressed s (post network body s).1
  unfolding post
  post-IsAddressed s = Run-IsAddressed (attempts-Run network body max_attempts 1 none s)

module _ (h : Host) (network : Network) where
  send_payload-IsAddressed :
      (p : Payload) (s : State) → IsAddressed s (send_payload h network p s).1
  unfolding send_payload
  send_payload-IsAddressed p s = elim (Bool-cases (ltb max_body_bytes (length (encode_body p)))) [
    | inl big ↦ rw big (IsAddressed-refl s)
    | inr fits ↦ rw fits (
        post-IsAddressed network (encode_body p)
          (not_ltb→le max_body_bytes (length (encode_body p)) fits) s)
  ]

  send_after-IsAddressed :
      (o : Option CloudflareEmailError) (m : EmailMessage) (l : List Text) (s : State)
      → IsAddressed s (send_after h network o m l s).1
  unfolding send_after send_fresh
  send_after-IsAddressed (some f) m l s = IsAddressed-refl s
  send_after-IsAddressed none m l s = elim (Result-cases (build_payload h m l)) [
    | inl (p, b) ↦ rw (b, send_fresh) (send_payload-IsAddressed p s)
    | inr (x, b) ↦ rw (b, send_fresh) (IsAddressed-refl s)
  ]

  -- Each request of a batch goes to the address of the session and carries its token, and its body
  -- has at most 5 MiB, whatever the messages are and the network answers; the address and the token
  -- stay as they were.
  pub send_all-IsAddressed :
      (batch : List (EmailMessage × List Text)) (s : State)
      → IsAddressed s (send_all h network batch s).1
  unfolding send_all send_message
  send_all-IsAddressed [] s = IsAddressed-refl s
  send_all-IsAddressed ((m, l) ∷ rest) s =
      let s' = (send_after h network s.session.fatal_error m l s).1 in
      IsAddressed-trans s s' (send_all h network rest s').1
        (send_after-IsAddressed s.session.fatal_error m l s) (send_all-IsAddressed rest s')
