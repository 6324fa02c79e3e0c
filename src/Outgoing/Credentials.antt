-- ===== src/Outgoing/Credentials.antt =====
-- Which servers the constraint refuses, and with what.
use odoo_cloudflare_email.Prelude.{
  ◌≡◌, refl, ◌⊎◌, inl, inr, ap, true, false, List, [], ◌∷◌, ◌++◌, All, Bool-cases,
}
use odoo_cloudflare_email.Errors.{
  user_error, UserError, no_account_id, no_api_token, no_from_filter, Result, ok, err,
}
use odoo_cloudflare_email.Outgoing.{
  MailServer, is_cloudflare, cloudflare_servers, is_filled, check_server, check_loop,
  check_credentials,
}

-- A server that Cloudflare can send for.
pub record HasCredentials (s : MailServer) : Type 0 where
  pub account_id : is_filled s.cloudflare_account_id ≡ true
  pub api_token : is_filled s.cloudflare_api_token ≡ true
  pub from_filter : is_filled s.from_filter ≡ true

-- The first thing that a server lacks.
pub data Lacks : MailServer → UserError → Type 0 where
  account_id :
      (s : MailServer) → is_filled s.cloudflare_account_id ≡ false → Lacks s (no_account_id s.name)
  api_token :
      (s : MailServer)
      → is_filled s.cloudflare_account_id ≡ true
      → is_filled s.cloudflare_api_token ≡ false
      → Lacks s (no_api_token s.name)
  from_filter :
      (s : MailServer)
      → is_filled s.cloudflare_account_id ≡ true
      → is_filled s.cloudflare_api_token ≡ true
      → is_filled s.from_filter ≡ false
      → Lacks s (no_from_filter s.name)

-- A server that is not of the type, or has what it needs.
abbrev pub IsUsable : MailServer → Type 0
IsUsable s = (is_cloudflare s ≡ false) ⊎ HasCredentials s

-- What the constraint answers for a set of servers.
abbrev pub IsChecked : List MailServer → Result (Unit {0}) → Type 0
IsChecked servers (ok _) = All IsUsable servers
IsChecked servers (err x) =
    (e : UserError) × (s : MailServer) × (before : List MailServer) × (after : List MailServer) × (x
      ≡ user_error e)
    × (servers ≡ before ++ s ∷ after)
    × All IsUsable before
    × (is_cloudflare s ≡ true)
    × Lacks s e

check_server-IsChecked :
    (s : MailServer)
    → (check_server s ≡ ok tt) × HasCredentials s
      ⊎ ((e : UserError) × (check_server s ≡ err (user_error e)) × Lacks s e)
unfolding check_server
check_server-IsChecked s = elim (Bool-cases (is_filled s.cloudflare_account_id)) [
  | inr a ↦ inr (no_account_id s.name, rw a refl, account_id s a)
  | inl a ↦ elim (Bool-cases (is_filled s.cloudflare_api_token)) [
    | inr t ↦ inr (no_api_token s.name, rw (a, t) refl, api_token s a t)
    | inl t ↦ elim (Bool-cases (is_filled s.from_filter)) [
      | inr f ↦ inr (no_from_filter s.name, rw (a, t, f) refl, from_filter s a t f)
      | inl f ↦ inl (rw (a, t, f) refl, record { account_id = a; api_token = t; from_filter = f })
    ]
  ]
]

-- A usable server in front changes nothing.
IsChecked-cons :
    (s : MailServer) (servers : List MailServer) (r : Result (Unit {0}))
    → IsUsable s
    → IsChecked servers r
    → IsChecked (s ∷ servers) r
IsChecked-cons s servers (ok _) u c = (u, c)
IsChecked-cons s servers (err x) u (e, t, before, after, same, split, fine, kind, lacks) = (
  e,
  t,
  s ∷ before,
  after,
  same,
  ap (λ (l : List MailServer). s ∷ l) split,
  (u, fine),
  kind,
  lacks,
)

-- The constraint passes when each Cloudflare server of the set has an account, a token and a filter,
-- and else raises what the first server that lacks one of them lacks first.
pub check_credentials-IsChecked :
    (servers : List MailServer) → IsChecked servers (check_credentials servers)
unfolding check_credentials check_loop cloudflare_servers
check_credentials-IsChecked [] = tt
check_credentials-IsChecked (s ∷ servers) = elim (Bool-cases (is_cloudflare s)) [
  | inr other ↦ rw other (
      IsChecked-cons s servers (check_credentials servers) (inl other)
        (check_credentials-IsChecked servers))
  | inl kind ↦ elim (check_server-IsChecked s) [
    | inl (fine, has) ↦
        rw (kind, fine)
          (IsChecked-cons s servers (check_credentials servers) (inr has)
            (check_credentials-IsChecked servers))
    | inr (e, raised, lacks) ↦ rw (kind, raised) (e, s, [], servers, refl, refl, tt, kind, lacks)
  ]
]
