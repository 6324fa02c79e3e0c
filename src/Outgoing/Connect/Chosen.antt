-- ===== src/Outgoing/Connect/Chosen.antt =====
-- When `connect` returns a session for Cloudflare, for which server, and where that session sends to.
use odoo_cloudflare_email.Prelude.{
  ℕ, ◌≡◌, ◌≢◌, ◌↔◌, ◌⊎◌, refl, inl, inr, ap, sym, ◌∙◌, Bool, true, false, not, ◌&&◌, ◌||◌, Option,
  none, some, List, [], ◌∷◌, ◌++◌, All, Bool-cases, is_empty, ◌==◌, arith,
}
use odoo_cloudflare_email.Text.{Text, codes, text_eq}
use odoo_cloudflare_email.Text.Equality.{text_eq→eq, text_eq_refl}
use odoo_cloudflare_email.Errors.{Result, ok, Result-cases, ok_injective}
use odoo_cloudflare_email.Api.Mime.{or_empty}
use odoo_cloudflare_email.Api.Session.{Session, new_session}
use odoo_cloudflare_email.Outgoing.{MailServer, is_cloudflare}
use odoo_cloudflare_email.Outgoing.Connect.{
  ConnectArgs, Connection, session, formatted, cloudflare_session, browse, resolve_with, resolve,
  given_id, open_core, connect_to, connect,
}

-- The session of a server: its account and its token, its own filter and name.
abbrev pub session_for : MailServer → Option Text → Session
session_for s smtp_from = record {
  account_id = formatted s.cloudflare_account_id;
  from_filter = s.from_filter;
  smtp_from = smtp_from;
  mail_server_name = s.display_name;
  send_url =
      codes "https://api.cloudflare.com/client/v4/accounts/"
      ++ (formatted s.cloudflare_account_id ++ codes "/email/sending/send");
  authorization = codes "Bearer " ++ formatted s.cloudflare_api_token;
  fatal_error = none;
}

pub cloudflare_session-eq-session_for :
    (s : MailServer) (smtp_from : Option Text)
    → cloudflare_session s smtp_from ≡ session_for s smtp_from
unfolding cloudflare_session new_session
cloudflare_session-eq-session_for s smtp_from = refl

-- The first server of a table with an id.
pub record IsFirst (id : ℕ) (table : List MailServer) (s : MailServer) : Type 0 where
  pub before : List MailServer
  pub after : List MailServer
  pub table_is : table ≡ before ++ s ∷ after
  pub has_id : s.id ≡ id
  pub others : All (λ (b : MailServer). b.id ≢ id) before

browse-IsFirst :
    (id : ℕ) (table : List MailServer) (s : MailServer)
    → browse id table ≡ ok s
    → IsFirst id table s
unfolding browse
browse-IsFirst id [] s e = absurd (cc (e))
browse-IsFirst id (b ∷ table) s e = elim (Bool-cases (b.id == id)) [
  | inl mine ↦
      let same = ok_injective (rw mine at e) in
      record {
        before = [];
        after = table;
        table_is = ap (λ x. x ∷ table) same;
        has_id = ap (λ (x : MailServer). x.id) (sym same) ∙ ground (arith, mine);
        others = tt;
      }
  | inr other ↦
      let p = browse-IsFirst id table s (rw other at e) in
      record {
        before = b ∷ p.before;
        after = p.after;
        table_is = ap (λ x. b ∷ x) p.table_is;
        has_id = p.has_id;
        others = (λ same. ground (arith, other, same), p.others);
      }
]

browse-skips :
    (id : ℕ) (before after : List MailServer) (s : MailServer)
    → All (λ (b : MailServer). b.id ≢ id) before
    → s.id ≡ id
    → browse id (before ++ s ∷ after) ≡ ok s
unfolding browse
browse-skips id [] after s p e = rw e (ground arith)
browse-skips id (b ∷ before) after s (ne, p) e =
    let other : (b.id == id) ≡ false = ground (arith, ne) in
    rw other (browse-skips id before after s p e)

is_empty-cases : (o : Option Text) → is_empty (or_empty o) ≡ true → (o ≡ none) ⊎ (o ≡ some [])
is_empty-cases none e = inl refl
is_empty-cases (some []) e = inr refl
is_empty-cases (some (c ∷ t)) e = absurd (cc)

module _ {A C : Type 0} (table : List MailServer)
    (find_mail_server : Option Text → Option MailServer × Option Text)
    (core_connect : ConnectArgs A → Result C) (args : ConnectArgs A) where
  -- The server and the sender address that the arguments stand for: an id names the first server that
  -- has it; without one, and without a host, core finds a server for the sender.
  pub data IsChosen (s : MailServer) (smtp_from : Option Text) : Type 0 where
    by_id :
        (id : ℕ)
        → args.mail_server_id ≡ some id
        → id ≢ 0
        → IsFirst id table s
        → smtp_from ≡ args.smtp_from
        → IsChosen s smtp_from
    by_sender :
        (args.mail_server_id ≡ none) ⊎ (args.mail_server_id ≡ some 0)
        → (args.host ≡ none) ⊎ (args.host ≡ some [])
        → find_mail_server args.smtp_from ≡ (some s, smtp_from)
        → IsChosen s smtp_from

  -- The call chose this Cloudflare server, which may be used, and made its session.
  pub record IsSessionOf (σ : Session) : Type 0 where
    pub server : MailServer
    pub smtp_from : Option Text
    pub chosen : IsChosen server smtp_from
    pub kind : server.smtp_authentication ≡ codes "cloudflare"
    pub usable : (args.allow_archived ≡ true) ⊎ (server.active ≡ true)
    pub made : σ ≡ session_for server smtp_from

  searched-IsChosen :
      (s : MailServer) (smtp_from : Option Text)
      → (args.mail_server_id ≡ none) ⊎ (args.mail_server_id ≡ some 0)
      → resolve_with table find_mail_server core_connect none args ≡ ok (some s, smtp_from)
      → IsChosen s smtp_from
  unfolding resolve_with
  searched-IsChosen s smtp_from no_id e = elim (Bool-cases (is_empty (or_empty args.host))) [
    | inl empty ↦ by_sender no_id (is_empty-cases args.host empty) (ok_injective (rw empty at e))
    | inr given ↦ cc (rw given at e)
  ]

  browsed-IsChosen :
      (s : MailServer) (smtp_from : Option Text) (n : ℕ)
      → args.mail_server_id ≡ some n
      → n ≢ 0
      → resolve_with table find_mail_server core_connect (some n) args ≡ ok (some s, smtp_from)
      → IsChosen s smtp_from
  unfolding resolve_with
  browsed-IsChosen s smtp_from n is nonzero e = elim (Result-cases (browse n table)) [
    | inl (b, found) ↦
        let same = ok_injective (rw found at e) in
        let chosen : b ≡ s = cc (same) in
        by_id n is nonzero (rw (← chosen) (browse-IsFirst n table b found)) (cc (same))
    | inr (x, fails) ↦ cc (rw fails at e)
  ]

  resolve-IsChosen :
      (s : MailServer) (smtp_from : Option Text) (mail_server_id : Option ℕ)
      → args.mail_server_id ≡ mail_server_id
      → resolve_with table find_mail_server core_connect (given_id mail_server_id) args
        ≡ ok (some s, smtp_from)
      → IsChosen s smtp_from
  resolve-IsChosen s smtp_from none is e = searched-IsChosen s smtp_from (inl is) e
  resolve-IsChosen s smtp_from (some n) is e = elim (Bool-cases (n == 0)) [
    | inl z ↦
        let same : n ≡ 0 = ground (arith, z) in
        searched-IsChosen s smtp_from (inr (is ∙ ap some same)) (rw z at e)
    | inr other ↦ browsed-IsChosen s smtp_from n is (λ z. ground (arith, z, other)) (rw other at e)
  ]

  IsChosen-resolve :
      (s : MailServer) (smtp_from : Option Text)
      → IsChosen s smtp_from
      → resolve table find_mail_server core_connect args ≡ ok (some s, smtp_from)
  unfolding resolve resolve_with
  IsChosen-resolve s smtp_from (by_id id given nonzero first from) =
      let z : (id == 0) ≡ false = ground (arith, nonzero) in
      let found : browse id table ≡ ok s =
        rw first.table_is (browse-skips id first.before first.after s first.others first.has_id) in
      rw given (rw z (rw (found, from) refl))
  IsChosen-resolve s smtp_from (by_sender (inl no_id) (inl no_host) found) =
      rw (no_id, no_host) (rw found refl)
  IsChosen-resolve s smtp_from (by_sender (inl no_id) (inr no_host) found) =
      rw (no_id, no_host) (rw found refl)
  IsChosen-resolve s smtp_from (by_sender (inr no_id) (inl no_host) found) =
      rw (no_id, no_host) (rw found refl)
  IsChosen-resolve s smtp_from (by_sender (inr no_id) (inr no_host) found) =
      rw (no_id, no_host) (rw found refl)

  session_injective : {σ τ : Session} → ◌≡◌ {A = Connection C} (session σ) (session τ) → τ ≡ σ
  session_injective e = cc (e)

  open_core-ne-session :
      (args' : ConnectArgs A) (σ : Session)
      → open_core table find_mail_server core_connect args' ≡ ok (session σ)
      → ⊥
  unfolding open_core
  open_core-ne-session args' σ e = elim (Result-cases (core_connect args')) [
    | inl (c, opens) ↦ cc (rw opens at e)
    | inr (x, fails) ↦ cc (rw fails at e)
  ]

  connect_to-session :
      (s : Option MailServer) (smtp_from : Option Text) (σ : Session)
      → resolve table find_mail_server core_connect args ≡ ok (s, smtp_from)
      → connect_to table find_mail_server core_connect s smtp_from args ≡ ok (session σ)
      → IsSessionOf σ
  unfolding connect_to
  connect_to-session none smtp_from σ found e =
      absurd (open_core-ne-session (record args { smtp_from = smtp_from }) σ e)
  connect_to-session (some s) smtp_from σ found e = elim (Bool-cases (is_cloudflare s)) [
    | inr other ↦ absurd (
        open_core-ne-session (record args { smtp_from = smtp_from; mail_server_id = some s.id }) σ
          (rw other at e))
    | inl kind ↦ elim (Bool-cases (args.allow_archived || s.active)) [
      | inr barred ↦
          let closed : (not args.allow_archived && not s.active) ≡ true = ground arith in
          cc (rw (kind, closed) at e)
      | inl usable ↦
          let opens : (not args.allow_archived && not s.active) ≡ false = ground arith in
          record {
            server = s;
            smtp_from = smtp_from;
            chosen =
                resolve-IsChosen s smtp_from args.mail_server_id refl (unfold resolve in found);
            kind =
                text_eq→eq s.smtp_authentication (codes "cloudflare")
                  (unfold is_cloudflare in kind);
            usable = ground (arith, usable);
            made =
                session_injective (ok_injective (rw (kind, opens) at e))
                ∙ cloudflare_session-eq-session_for s smtp_from;
          }
    ]
  ]

  connect-made :
      (σ : Session)
      → IsSessionOf σ
      → connect table find_mail_server core_connect false args ≡ ok (session σ)
  unfolding connect connect_to is_cloudflare
  connect-made σ p =
      let opens : (not args.allow_archived && not p.server.active) ≡ false = elim p.usable [
        | inl a ↦ rw a refl
        | inr a ↦ ground (arith, a)
      ] in
      let kind : text_eq p.server.smtp_authentication (codes "cloudflare") ≡ true =
        rw p.kind (text_eq_refl (codes "cloudflare")) in
      let same = p.made ∙ sym (cloudflare_session-eq-session_for p.server p.smtp_from) in
      rw (IsChosen-resolve p.server p.smtp_from p.chosen)
        (rw (kind, opens) (ap (λ (t : Session). ok (session t)) (sym same)))

  -- `connect` returns a session for Cloudflare exactly when it is no test, and the server of the call
  -- is a Cloudflare server that is active or may be archived: the first one in the table with the id
  -- that is given, or, where no id and no host is given, the one that core finds for the sender. The
  -- session is for the account of this server, with its token, filter and name, and with the sender
  -- address that goes with it.
  pub connect-IsSessionOf_iff :
      (testing : Bool) (σ : Session)
      → (connect table find_mail_server core_connect testing args ≡ ok (session σ))
        ↔ ((testing ≡ false) × IsSessionOf σ)
  unfolding connect
  connect-IsSessionOf_iff testing σ = (
    λ e. elim (Bool-cases testing) [
      | inl test ↦ cc (rw test at e)
      | inr live ↦ elim (Result-cases (resolve table find_mail_server core_connect args)) [
        | inl ((s, smtp_from), found) ↦
            (live, connect_to-session s smtp_from σ found (rw (live, found) at e))
        | inr (x, fails) ↦ cc (rw (live, fails) at e)
      ]
    ],
    λ (live, p). rw live (connect-made σ p),
  )
