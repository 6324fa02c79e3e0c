-- ===== src/Api/Session/Breaker.antt =====
-- A session as a circuit breaker: the abstract view is the remembered error and the number of
-- requests, and a send is one of four moves.
use mathlib.Core.Path.{subst}
use odoo_cloudflare_email.Prelude.{
  ℕ, zero, suc, ◌+◌, ◌≤◌, ◌≡◌, refl, sym, ap, ◌∙◌, true, false, Option, none, some, List, [], ◌∷◌,
  inl, inr, arith, Option-cases, Bool-cases, ltb, length,
}
use odoo_cloudflare_email.Text.{Text}
use odoo_cloudflare_email.Json.{Json}
use odoo_cloudflare_email.Text.{Bytes}
use odoo_cloudflare_email.Errors.{
  CloudflareEmailError, Exception, cloudflare, Result, ok, err, is_fatal, Result-cases, ◌>>=◌,
}
use odoo_cloudflare_email.Api.Host.{Host}
use odoo_cloudflare_email.Api.Mime.{EmailMessage}
use odoo_cloudflare_email.Api.Payload.{Payload, build_payload, encode_body}
use odoo_cloudflare_email.Api.Session.{State, Session, Request, Network, max_body_bytes}
use odoo_cloudflare_email.Api.Session.Send.{
  refused_after, finish, send_payload, send_fresh, send_message, send_all,
}
use odoo_cloudflare_email.Api.Session.Raises.{build_payload-err, finish-err}
use odoo_cloudflare_email.Api.Session.Retry.{again, IsSpent, post-IsSpent}
use odoo_cloudflare_email.Api.Session.Memory.{Ending, post-Ending}
use odoo_cloudflare_email.Api.Session.Batch.{send_message-none, send_message-some}

-- One send: what is remembered before it, its result, its requests, what is remembered after it.
pub data Move
    : Option CloudflareEmailError → Result Json → ℕ → Option CloudflareEmailError → Type 0 where
  accepts : (r : Json) (n : ℕ) → 1 ≤ n → n ≤ 3 → Move none (ok r) n none
  fails : (x : Exception) (n : ℕ) → n ≤ 3 → is_fatal x ≡ false → Move none (err x) n none
  trips :
      (error : CloudflareEmailError) (n : ℕ)
      → 1 ≤ n
      → n ≤ 3
      → error.fatal ≡ true
      → Move none (err (cloudflare error)) n (some error)
  refuses : (f : CloudflareEmailError) → Move (some f) (err (refused_after f)) 0 (some f)

-- The moves of a batch, one for each of its results.
pub data Moves
    : Option CloudflareEmailError
      → List (Result Json)
      → ℕ
      → Option CloudflareEmailError
      → Type 0 where
  nothing : {o : Option CloudflareEmailError} → Moves o [] 0 o
  one :
      {r : Result Json} {n k : ℕ} {o o' o'' : Option CloudflareEmailError} {rs : List (Result Json)}
      → Move o r n o'
      → Moves o' rs k o''
      → Moves o (r ∷ rs) (n + k) o''

-- A send from one state to another, with its result, is a move.
pub record IsMove (o : Option CloudflareEmailError) (s : State) (r : Result Json) (s' : State)
    : Type 0 where
  pub sent : ℕ
  pub move : Move o r sent s'.session.fatal_error
  pub requests : length s'.requests ≡ sent + length s.requests

length-again : (n : ℕ) (r : Request) (rs : List Request) → length (again n r rs) ≡ n + length rs
length-again zero r rs = omega arith
length-again (suc n) r rs = omega (arith, length-again n r rs)

-- A send that makes no request and raises an error that is not fatal.
IsMove-unsent :
    (s : State) (x : Exception)
    → s.session.fatal_error ≡ none
    → is_fatal x ≡ false
    → IsMove none s (err x) s
IsMove-unsent s x fresh calm = record {
  sent = 0;
  move = rw fresh (fails x 0 (omega arith) calm);
  requests = omega arith;
}

-- A send of one to three requests whose answer is read by something that raises no fatal error.
posted-IsMove :
    (network : Network) (body : Bytes) (s : State) (r : Result Json) (s' : State)
    (rest : Json → Result Json)
    → s.session.fatal_error ≡ none
    → Ending network body s r s'
    → IsSpent 3 body s s'
    → ((y : Json) (x : Exception) → rest y ≡ err x → is_fatal x ≡ false)
    → IsMove none s (r >>= rest) s'
posted-IsMove network body s r s' rest fresh ending spent calm =
    let sent : length s'.requests ≡ spent.rounds + length s.requests =
      ap length spent.sent ∙ length-again spent.rounds _ s.requests in
    record { sent = spent.rounds; move = go r ending; requests = sent }
  where
    some_sent : 1 ≤ spent.rounds
    some_sent = elim spent.some_round [ inl never ↦ absurd (omega (arith, never)) | inr le ↦ le ]

    go :
        (q : Result Json)
        → Ending network body s q s'
        → Move none (q >>= rest) spent.rounds s'.session.fatal_error
    go (ok y) e =
        let still : s'.session.fatal_error ≡ none =
          ap (λ (t : Session). t.fatal_error) e.kept ∙ fresh in
        rw still (elim (Result-cases (rest y)) [
          | inl (v, w) ↦ rw w (accepts v spent.rounds some_sent spent.few)
          | inr (x, w) ↦ rw w (fails x spent.rounds spent.few (calm y x w))
        ])
    go (err x) (inl (error, same, barred)) =
        rw (same, barred.remembered) (trips error spent.rounds some_sent spent.few barred.flagged)
    go (err x) (inr (quiet, kept)) =
        let still : s'.session.fatal_error ≡ none =
          ap (λ (t : Session). t.fatal_error) kept ∙ fresh in
        rw still (fails x spent.rounds spent.few quiet)

module _ (h : Host) (network : Network) where
  send_payload-IsMove :
      (p : Payload) (s : State)
      → s.session.fatal_error ≡ none
      → IsMove none s (send_payload h network p s).0 (send_payload h network p s).1
  unfolding send_payload
  send_payload-IsMove p s fresh = elim (Bool-cases (ltb max_body_bytes (length (encode_body p)))) [
    | inl big ↦ rw big (IsMove-unsent s _ fresh refl)
    | inr fits ↦ rw fits (
        posted-IsMove network (encode_body p) s _ _ (finish h p.recipients) fresh
          (post-Ending network (encode_body p) s) (post-IsSpent network (encode_body p) s)
          (λ y x. finish-err h y p.recipients x))
  ]

  send_fresh-IsMove :
      (m : EmailMessage) (l : List Text) (s : State)
      → s.session.fatal_error ≡ none
      → IsMove none s (send_fresh h network m l s).0 (send_fresh h network m l s).1
  unfolding send_fresh
  send_fresh-IsMove m l s fresh = elim (Result-cases (build_payload h m l)) [
    | inl (p, b) ↦ rw (b, send_fresh) (send_payload-IsMove p s fresh)
    | inr (y, b) ↦ rw (b, send_fresh) (IsMove-unsent s y fresh (build_payload-err h m l y b))
  ]

  send_message-IsMove :
      (m : EmailMessage) (l : List Text) (s : State)
      → IsMove s.session.fatal_error s
          (send_message h network m l s).0
          (send_message h network m l s).1
  send_message-IsMove m l s = elim (Option-cases (s.session.fatal_error)) [
    | inl fresh ↦ rw (send_message-none h network m l s fresh) (
        subst (λ o. IsMove o s (send_fresh h network m l s).0 (send_fresh h network m l s).1)
          (sym fresh) (send_fresh-IsMove m l s fresh))
    | inr (f, old) ↦ rw (send_message-some h network m l s f old) (record {
      sent = 0;
      move = subst (λ o. Move o (err (refused_after f)) 0 o) (sym old) (refuses f);
      requests = omega arith;
    })
  ]

  -- Whatever the messages are and the network answers, a batch is a run of the breaker, with one move
  -- for each message, in order. While no error is remembered, a send is accepted with one to three
  -- requests, fails with at most three and an error that is not fatal, or raises a fatal error with
  -- one to three, and then that error is remembered. Once one is remembered, it stays, and each send
  -- makes no request and raises a fatal error with its status and its code.
  pub send_all-Moves :
      (batch : List (EmailMessage × List Text)) (s : State)
      → (n : ℕ) × Moves s.session.fatal_error
          (send_all h network batch s).0
          n
          (send_all h network batch s).1.session.fatal_error
        × (length (send_all h network batch s).1.requests ≡ n + length s.requests)
        × (length (send_all h network batch s).0 ≡ length batch)
  unfolding send_all
  send_all-Moves [] s = (0, nothing, omega arith, refl)
  send_all-Moves ((m, l) ∷ rest) s =
      let a = send_message-IsMove m l s in
      let (n, moves, requests, size) = send_all-Moves rest (send_message h network m l s).1 in
      (a.sent + n, one a.move moves, omega (arith, a.requests, requests), omega (arith, size))
