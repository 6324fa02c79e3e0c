-- ===== src/Fetchmail/Table/Found.antt =====
-- A webhook URL leads to its own server.
use mathlib.Core.List.{append-nil, append_assoc}
use odoo_cloudflare_email.Prelude.{
  ℕ, ◌≡◌, ◌≢◌, refl, ◌∙◌, true, false, ◌&&◌, Option, some, List, [], ◌∷◌, ◌++◌, All, arith,
  Bool-cases, inl, inr, is_empty, ◌==◌, if◌then◌else◌,
}
use odoo_cloudflare_email.Text.{Text, text_eq}
use odoo_cloudflare_email.Text.Equality.{count, count-append, text_eq_refl}
use odoo_cloudflare_email.Api.Mime.{or_empty}
use odoo_cloudflare_email.Fetchmail.Server.{Server, cloudflare_type, find_by_key}
use odoo_cloudflare_email.Fetchmail.Server.Lookup.{IsOpen, IsLookup-find_by_key}
use odoo_cloudflare_email.Fetchmail.Credentials.{is_filled}
use odoo_cloudflare_email.Fetchmail.Forms.{rstrip_slashes, inbound_path, webhook_url}
use odoo_cloudflare_email.Fetchmail.Table.{State, Reach, own_key, keys}
use odoo_cloudflare_email.Fetchmail.Table.Sound.{IsSound, count-keys, Reach-IsSound}

-- What stands behind the last slash.
segment : Text → Text → Text
segment part [] = part
segment part (c ∷ s) = if c == b'/' then segment [] s else segment (part ++ c ∷ []) s

pub last_segment : Text → Text
unfolding segment
last_segment s = segment [] s

abbrev pub NoSlash : Text → Type 0
NoSlash s = All (λ c. c ≢ b'/') s

segment-NoSlash : (part s : Text) → NoSlash s → segment part s ≡ part ++ s
unfolding segment
segment-NoSlash part [] p = rw append-nil
segment-NoSlash part (c ∷ s) (pc, p) =
    let other : (c == b'/') ≡ false = ground arith in
    rw other (segment-NoSlash (part ++ c ∷ []) s p ∙ append_assoc part (c ∷ []) s)

segment-append : (part before s : Text) → NoSlash s → segment part (before ++ b'/' ∷ s) ≡ s
unfolding segment
segment-append part [] s p = segment-NoSlash [] s p
segment-append part (c ∷ before) s p = elim (Bool-cases (c == b'/')) [
  | inl e ↦ rw e (segment-append [] before s p)
  | inr e ↦ rw e (segment-append (part ++ c ∷ []) before s p)
]

not_empty : (key : Text) → key ≢ [] → is_empty key ≡ false
not_empty [] filled = absurd (filled refl)
not_empty (c ∷ key) filled = refl

own_key-IsOpen :
    (key : Text) (s : Server) → key ≢ [] → IsOpen key s → own_key s.webhook_key ≡ key ∷ []
own_key-IsOpen key s filled o = rw o.owns (rw (not_empty key filled) refl)

-- No server of a part of the table that has not this key is open to it.
closed_of_count :
    (key : Text) (servers : List Server)
    → key ≢ []
    → count key (keys servers) ≡ 0
    → All (λ s. ¬ IsOpen key s) servers
unfolding count
closed_of_count key [] filled e = tt
closed_of_count key (s ∷ servers) filled e =
    let parts = count-append key (own_key s.webhook_key) (keys servers) in
    (
      λ o.
          let own : count key (own_key s.webhook_key) ≡ 1 =
            rw (own_key-IsOpen key s filled o) (rw (text_eq_refl key) (omega arith)) in
          omega (arith, e, parts, own),
      closed_of_count key servers filled (omega (arith, e, parts)),
    )

-- The address of a server, and that it has a key.
webhook_url-some :
    (base_url : Option Text) (s : Server) (url key : Text)
    → s.webhook_key ≡ some key
    → webhook_url base_url s ≡ some url
    → (key ≢ []) × (url ≡ rstrip_slashes (or_empty base_url) ++ (inbound_path ++ b'/' ∷ key))
unfolding webhook_url
webhook_url-some base_url s url key owns e =
    elim (Bool-cases (text_eq s.server_type cloudflare_type && is_filled s.webhook_key)) [
      | inr bad ↦ cc (rw bad at e)
      | inl good ↦
          let own : is_filled s.webhook_key ≡ true = ground arith in
          let has = rw owns at own in
          let made = rw owns at (rw good at e) in (λ nothing. cc (rw nothing at has), cc made)
    ]

last_segment-url :
    (key : Text) (base_url : Option Text)
    → NoSlash key
    → last_segment (rstrip_slashes (or_empty base_url) ++ (inbound_path ++ b'/' ∷ key)) ≡ key
unfolding last_segment
last_segment-url key base_url p =
    let base = rstrip_slashes (or_empty base_url) in
    rw (← append_assoc base inbound_path (b'/' ∷ key))
      (segment-append [] (base ++ inbound_path) key p)

pub empty-IsSound : (token : ℕ → Text) (n : ℕ) → IsSound token (record { servers = []; drawn = n })
unfolding count
empty-IsSound token n = record { once = λ x. omega arith; unused = λ k le. refl; credentials = tt }

module _ (token : ℕ → Text) (contract : Text) (filled : (k : ℕ) → is_empty (token k) ≡ false)
    (injective : (i j : ℕ) → token i ≡ token j → i ≡ j) where
  -- In every table that the operations make of an empty one, a server that is open to its key is the
  -- one that its webhook URL leads to: the last segment of the URL finds that server, where the key
  -- holds no slash. The tokens are taken to be filled and all different.
  pub Reach-find_by_key :
      {u : State} (n : ℕ)
      → Reach token contract (record { servers = []; drawn = n }) u
      → (key : Text) (before : List Server) (s : Server) (after : List Server)
        (base_url : Option Text) (url : Text)
      → u.servers ≡ before ++ s ∷ after
      → IsOpen key s
      → NoSlash key
      → webhook_url base_url s ≡ some url
      → find_by_key (last_segment url) u.servers ≡ some s
  Reach-find_by_key {u} n r key before s after base_url url split o plain address =
      let sound = Reach-IsSound token contract filled injective (empty-IsSound token n) r in
      let (ne, same) = webhook_url-some base_url s url key o.owns address in
      let own : count key (own_key s.webhook_key) ≡ 1 =
        rw (own_key-IsOpen key s ne o) (unfold count in rw (text_eq_refl key) (omega arith)) in
      let few = rw split at (sound.once key) in
      let none_before : count key (keys before) ≡ 0 =
        omega (arith, few, own, count-keys key before s after) in
      rw (same, last_segment-url key base_url plain)
        (IsLookup-find_by_key key u.servers s
          (ne, o, (before, after, split, closed_of_count key before ne none_before)))
