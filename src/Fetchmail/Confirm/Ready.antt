-- ===== src/Fetchmail/Confirm/Ready.antt =====
-- When a confirmation of a set of servers returns, and with what.
use odoo_cloudflare_email.Prelude.{
  ◌≡◌, ◌≢◌, ◌↔◌, ◌⊎◌, refl, sym, ap, ◌∙◌, true, ◌&&◌, Option, none, some, List, [], ◌∷◌, Bool-cases,
  inl, inr, arith,
}
use odoo_cloudflare_email.Text.{Text, codes, text_eq, contains}
use odoo_cloudflare_email.Text.Equality.{text_eq→eq, text_eq_refl}
use odoo_cloudflare_email.Errors.{Result, ok, Result-cases, ok_injective}
use odoo_cloudflare_email.Api.Mime.{or_empty}
use odoo_cloudflare_email.Fetchmail.Server.{Server, cloudflare_type, done_state}
use odoo_cloudflare_email.Fetchmail.Credentials.{is_filled, write_fields}
use odoo_cloudflare_email.Fetchmail.Confirm.{
  loopback_hosts, host_in, cloudflare_servers, other_servers, is_secure, check_base_url, confirm,
  confirm_loop, button_confirm_login,
}

-- A text that is there and not empty.
pub record IsGiven (o : Option Text) : Type 0 where
  pub value : Text
  pub given : o ≡ some value
  pub some_character : value ≢ []

is_filled→IsGiven : (o : Option Text) → is_filled o ≡ true → IsGiven o
is_filled→IsGiven none e = absurd (cc)
is_filled→IsGiven (some []) e = absurd (cc)
is_filled→IsGiven (some (c ∷ t)) e = record {
  value = c ∷ t;
  given = refl;
  some_character = λ same. cc;
}

IsGiven→is_filled : (o : Option Text) → IsGiven o → is_filled o ≡ true
IsGiven→is_filled none g = absurd (cc (g.given))
IsGiven→is_filled (some []) g = absurd (g.some_character (cc (g.given)))
IsGiven→is_filled (some (c ∷ t)) g = refl

-- The address is https, or http on a host that stands for this machine.
abbrev pub IsLoopback : Option Text → Type 0
IsLoopback host =
    (host ≡ some (codes "localhost"))
    ⊎ ((host ≡ some (codes "127.0.0.1")) ⊎ (host ≡ some (codes "::1")))

abbrev pub IsSecure : Text × Option Text → Type 0
IsSecure (scheme, host) = (scheme ≡ codes "https") ⊎ ((scheme ≡ codes "http") × IsLoopback host)

host_in→IsLoopback : (host : Option Text) → host_in host loopback_hosts ≡ true → IsLoopback host
unfolding host_in loopback_hosts contains
host_in→IsLoopback none e = absurd (cc)
host_in→IsLoopback (some t) e = elim (Bool-cases (text_eq (codes "localhost") t)) [
  | inl a ↦ inl (ap some (sym (text_eq→eq (codes "localhost") t a)))
  | inr a ↦ elim (Bool-cases (text_eq (codes "127.0.0.1") t)) [
    | inl b ↦ inr (inl (ap some (sym (text_eq→eq (codes "127.0.0.1") t b))))
    | inr b ↦ elim (Bool-cases (text_eq (codes "::1") t)) [
      | inl c ↦ inr (inr (ap some (sym (text_eq→eq (codes "::1") t c))))
      | inr c ↦ cc (rw (a, b, c) at e)
    ]
  ]
]

IsLoopback→host_in : (host : Option Text) → IsLoopback host → host_in host loopback_hosts ≡ true
unfolding host_in loopback_hosts contains text_eq
IsLoopback→host_in host (inl e) = rw e refl
IsLoopback→host_in host (inr (inl e)) = rw e refl
IsLoopback→host_in host (inr (inr e)) = rw e refl

is_secure-IsSecure_iff : (p : Text × Option Text) → (is_secure p ≡ true) ↔ IsSecure p
unfolding is_secure
is_secure-IsSecure_iff (scheme, host) = (
  λ e. elim (Bool-cases (text_eq scheme (codes "https"))) [
    | inl a ↦ inl (text_eq→eq scheme (codes "https") a)
    | inr a ↦
        inr
          (text_eq→eq scheme (codes "http") (ground arith), host_in→IsLoopback host (ground arith))
  ],
  λ s. elim s [
    | inl a ↦ rw a (ground (arith, text_eq_refl (codes "https")))
    | inr (a, b) ↦ rw a (ground (arith, text_eq_refl (codes "http"), IsLoopback→host_in host b))
  ],
)

module _ (urlsplit : Text → Text × Option Text) (base_url : Option Text) where
  -- The Cloudflare server has both credentials, the base address is accepted, and the write sets its
  -- state and nothing else.
  pub record IsConfirmed (s t : Server) : Type 0 where
    pub kind : s.server_type ≡ cloudflare_type
    pub key : IsGiven s.webhook_key
    pub secret : IsGiven s.webhook_secret
    pub secure : IsSecure (urlsplit (or_empty base_url))
    pub made : t ≡ record s { state = done_state }

  -- A set of servers, those of Cloudflare as they are written, and the others, each in its order.
  pub data Confirms : List Server → List Server → List Server → Type 0 where
    no_server : Confirms [] [] []
    of_cloudflare :
        {servers out others : List Server} (s t : Server)
        → IsConfirmed s t
        → Confirms servers out others
        → Confirms (s ∷ servers) (t ∷ out) others
    of_core :
        {servers out others : List Server} (s : Server)
        → s.server_type ≢ cloudflare_type
        → Confirms servers out others
        → Confirms (s ∷ servers) out (s ∷ others)

  confirm-IsConfirmed :
      (s t : Server)
      → confirm urlsplit base_url s ≡ ok t
      → s.server_type ≡ cloudflare_type
      → IsConfirmed s t
  unfolding confirm check_base_url write_fields
  confirm-IsConfirmed s t e kind =
      elim (Bool-cases (is_filled s.webhook_key && is_filled s.webhook_secret)) [
        | inr bad ↦ cc (rw bad at e)
        | inl good ↦ elim (Bool-cases (is_secure (urlsplit (or_empty base_url)))) [
          | inr bad ↦ cc (rw (good, bad) at e)
          | inl secure ↦ record {
            kind = kind;
            key = is_filled→IsGiven s.webhook_key (ground arith);
            secret = is_filled→IsGiven s.webhook_secret (ground arith);
            secure = (is_secure-IsSecure_iff (urlsplit (or_empty base_url))).0 secure;
            made = sym (ok_injective (rw (good, secure) at e));
          }
        ]
      ]

  IsConfirmed-confirm : (s t : Server) → IsConfirmed s t → confirm urlsplit base_url s ≡ ok t
  unfolding confirm check_base_url write_fields
  IsConfirmed-confirm s t c =
      let good : (is_filled s.webhook_key && is_filled s.webhook_secret) ≡ true = ground (
        arith,
        IsGiven→is_filled s.webhook_key c.key,
        IsGiven→is_filled s.webhook_secret c.secret,
      ) in
      let secure = (is_secure-IsSecure_iff (urlsplit (or_empty base_url))).1 c.secure in
      rw (good, secure) (ap ok (sym c.made))

  confirm_loop-Confirms :
      (servers out : List Server)
      → confirm_loop urlsplit base_url (cloudflare_servers servers) ≡ ok out
      → Confirms servers out (other_servers servers)
  unfolding confirm_loop cloudflare_servers other_servers
  confirm_loop-Confirms [] out e = rw (← ok_injective e) no_server
  confirm_loop-Confirms (s ∷ servers) out e =
      elim (Bool-cases (text_eq s.server_type cloudflare_type)) [
        | inr b ↦ rw b (
            of_core s (λ kind. cc (text_eq_refl cloudflare_type, rw kind at b))
              (confirm_loop-Confirms servers out (rw b at e)))
        | inl b ↦ elim (Result-cases (confirm urlsplit base_url s)) [
          | inr (x, bad) ↦ cc (rw (b, bad) at e)
          | inl (t, first) ↦
              elim (Result-cases (confirm_loop urlsplit base_url (cloudflare_servers servers))) [
                | inr (x, bad) ↦ cc (rw (b, first, bad) at e)
                | inl (rest, later) ↦
                    rw (← ok_injective (rw (b, first, later) at e), b)
                      (of_cloudflare s t
                        (confirm-IsConfirmed s t first (text_eq→eq s.server_type cloudflare_type b))
                        (confirm_loop-Confirms servers rest later))
              ]
        ]
      ]

  Confirms-confirm_loop :
      {servers out others : List Server}
      → Confirms servers out others
      → (confirm_loop urlsplit base_url (cloudflare_servers servers) ≡ ok out)
        × (other_servers servers ≡ others)
  unfolding confirm_loop cloudflare_servers other_servers
  Confirms-confirm_loop no_server = (refl, refl)
  Confirms-confirm_loop (of_cloudflare s t c rest) =
      let (later, left) = Confirms-confirm_loop rest in
      let kind : text_eq s.server_type cloudflare_type ≡ true =
        rw c.kind (text_eq_refl cloudflare_type) in
      (rw (kind, IsConfirmed-confirm s t c, later) refl, rw kind left)
  Confirms-confirm_loop (of_core s other rest) =
      let (later, left) = Confirms-confirm_loop rest in
      elim (Bool-cases (text_eq s.server_type cloudflare_type)) [
        | inl b ↦ absurd (other (text_eq→eq s.server_type cloudflare_type b))
        | inr b ↦ (rw b later, rw (b, left) refl)
      ]

  -- `button_confirm_login` returns exactly when each Cloudflare server of the set has a key and a
  -- secret, the base address is https, or http on a loopback host, if there is such a server, and
  -- core's part takes the others, in their order. What it returns is each Cloudflare server, in its
  -- order, with nothing but its state set to done, and what core returns.
  pub button_confirm_login-Confirms_iff :
      (confirm_others : List Server → Result (List Server)) (servers out others : List Server)
      → (button_confirm_login urlsplit base_url confirm_others servers ≡ ok (out, others))
        ↔ ((left : List Server) × Confirms servers out left × (confirm_others left ≡ ok others))
  unfolding button_confirm_login
  button_confirm_login-Confirms_iff confirm_others servers out others = (
    λ e. elim (Result-cases (confirm_loop urlsplit base_url (cloudflare_servers servers))) [
      | inr (x, bad) ↦ cc (rw bad at e)
      | inl (done, first) ↦ elim (Result-cases (confirm_others (other_servers servers))) [
        | inr (x, bad) ↦ cc (rw (first, bad) at e)
        | inl (rest, later) ↦
            let same = ok_injective (rw (first, later) at e) in
            (
              other_servers servers,
              confirm_loop-Confirms servers out (first ∙ ap (λ p. ok p.0) same),
              later ∙ ap (λ p. ok p.1) same,
            )
      ]
    ],
    λ (left, c, later). let (first, same) = Confirms-confirm_loop c in rw (first, same, later) refl,
  )
