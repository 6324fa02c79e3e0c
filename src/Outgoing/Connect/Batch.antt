-- ===== src/Outgoing/Connect/Batch.antt =====
-- A batch of sends over the session that `connect` returned.
use mathlib.Core.List.{append-nil}
use odoo_cloudflare_email.Prelude.{
  ◌≡◌, sym, ◌∙◌, ◌≤◌, Bool, Option, List, [], ◌∷◌, ◌++◌, All, length,
}
use odoo_cloudflare_email.Text.{Text, codes}
use odoo_cloudflare_email.Errors.{Result, ok}
use odoo_cloudflare_email.Api.Host.{Host}
use odoo_cloudflare_email.Api.Mime.{EmailMessage}
use odoo_cloudflare_email.Api.Session.{
  Request, Session, State, Network, new_session, max_body_bytes,
}
use odoo_cloudflare_email.Api.Session.Send.{send_all}
use odoo_cloudflare_email.Api.Session.Addressed.{IsOwn, send_all-IsAddressed}
use odoo_cloudflare_email.Outgoing.{MailServer}
use odoo_cloudflare_email.Outgoing.Connect.{
  ConnectArgs, session, formatted, cloudflare_session, connect,
}
use odoo_cloudflare_email.Outgoing.Connect.Chosen.{
  IsSessionOf, cloudflare_session-eq-session_for, connect-IsSessionOf_iff,
}

-- The state of a session that has sent nothing.
abbrev pub fresh : Session → State
fresh σ = record { session = σ; requests = []; sleeps = [] }

-- A request for the account of this server, with its token.
pub record IsRequestOf (s : MailServer) (r : Request) : Type 0 where
  pub address :
      r.url
      ≡ codes "https://api.cloudflare.com/client/v4/accounts/"
        ++ (formatted s.cloudflare_account_id ++ codes "/email/sending/send")
  pub token : r.authorization ≡ codes "Bearer " ++ formatted s.cloudflare_api_token
  pub small : length r.body ≤ max_body_bytes

own-IsRequestOf :
    (s : MailServer) (smtp_from : Option Text) (rs : List Request)
    → All (IsOwn (cloudflare_session s smtp_from)) rs
    → All (IsRequestOf s) rs
unfolding cloudflare_session new_session
own-IsRequestOf s smtp_from [] p = tt
own-IsRequestOf s smtp_from (r ∷ rs) (o, p) = (
  record { address = o.address; token = o.token; small = o.small },
  own-IsRequestOf s smtp_from rs p,
)

module _ {A C : Type 0} (table : List MailServer)
    (find_mail_server : Option Text → Option MailServer × Option Text)
    (core_connect : ConnectArgs A → Result C) (args : ConnectArgs A) where
  -- When `connect` returns a session for Cloudflare, then whatever is sent over it, each request goes
  -- to the account of the Cloudflare server that the arguments choose, with that server's
  -- token, and has a body of at most 5 MiB.
  pub connect-send_all :
      (h : Host) (network : Network) (testing : Bool) (σ : Session)
      (batch : List (EmailMessage × List Text))
      → connect table find_mail_server core_connect testing args ≡ ok (session σ)
      → (p : IsSessionOf table find_mail_server core_connect args σ) × All
          (IsRequestOf p.server)
          (send_all h network batch (fresh σ)).1.requests
  connect-send_all h network testing σ batch e =
      let (_, p) =
        (connect-IsSessionOf_iff table find_mail_server core_connect args testing σ).0 e in
      let a = send_all-IsAddressed h network batch (fresh σ) in
      let made = p.made ∙ sym (cloudflare_session-eq-session_for p.server p.smtp_from) in
      let own : All (IsOwn (cloudflare_session p.server p.smtp_from)) a.new = rw (← made) a.own in
      (p, rw a.added (rw append-nil (own-IsRequestOf p.server p.smtp_from a.new own)))
