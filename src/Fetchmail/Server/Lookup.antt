-- ===== src/Fetchmail/Server/Lookup.antt =====
-- Which server a webhook key finds.
use odoo_cloudflare_email.Prelude.{
  ◌≡◌, refl, ◌↔◌, true, Option, none, some, List, [], ◌∷◌, ◌++◌, Bool-cases, inl, inr, arith, All,
  ◌≢◌, ◌⊎◌, ap,
}
use odoo_cloudflare_email.Text.{Text}
use odoo_cloudflare_email.Text.Equality.{text_eq→eq, text_eq_refl}
use odoo_cloudflare_email.Fetchmail.Server.{
  Server, cloudflare_type, done_state, has_text, is_match, search, find_by_key,
}

-- A server that takes requests for this key.
pub record IsOpen (key : Text) (server : Server) : Type 0 where
  pub owns : server.webhook_key ≡ some key
  pub kind : server.server_type ≡ cloudflare_type
  pub confirmed : server.state ≡ done_state
  pub active : server.active ≡ true

has_text_sound : (key : Text) (o : Option Text) → has_text key o ≡ true → o ≡ some key
unfolding has_text
has_text_sound key none e = cc
has_text_sound key (some value) e = ap some (text_eq→eq value key e)

has_text_refl : (key : Text) → has_text key (some key) ≡ true
unfolding has_text
has_text_refl key = text_eq_refl key

is_match-IsOpen_iff : (key : Text) (s : Server) → (is_match key s ≡ true) ↔ IsOpen key s
unfolding is_match
is_match-IsOpen_iff key s = (
  λ e. record {
    owns = has_text_sound key s.webhook_key (ground arith);
    kind = text_eq→eq s.server_type cloudflare_type (ground arith);
    confirmed = text_eq→eq s.state done_state (ground arith);
    active = ground arith;
  },
  λ o.
      rw
        (
          o.owns,
          o.kind,
          o.confirmed,
          o.active,
          has_text_refl key,
          text_eq_refl cloudflare_type,
          text_eq_refl done_state,
        )
        refl,
)

-- What a lookup finds: the first open server of this key, or none where no server is open to it.
abbrev pub IsLookup : Text → List Server → Option Server → Type 0
IsLookup key servers none = (key ≡ []) ⊎ All (λ s. ¬ IsOpen key s) servers
IsLookup key servers (some server) =
    (key ≢ [])
    × IsOpen key server
    × ((before : List Server) × (after : List Server) × (servers ≡ before ++ server ∷ after)
        × All (λ s. ¬ IsOpen key s) before)

module _ (key : Text) (filled : key ≢ []) where
  -- A server that is not open leaves the lookup to the others.
  skip :
      (s : Server) (servers : List Server) (o : Option Server)
      → ¬ IsOpen key s
      → IsLookup key servers o
      → IsLookup key (s ∷ servers) o
  skip s servers none closed (inl e) = inl e
  skip s servers none closed (inr closed_all) = inr (closed, closed_all)
  skip s servers (some found) closed (ne, opened, (before, after, split, earlier)) =
      (ne, opened, (s ∷ before, after, ap (λ l. s ∷ l) split, (closed, earlier)))

  search-IsLookup : (servers : List Server) → IsLookup key servers (search key servers)
  unfolding search
  search-IsLookup [] = inr tt
  search-IsLookup (s ∷ servers) = elim (Bool-cases (is_match key s)) [
    | inl e ↦ rw e (filled, (is_match-IsOpen_iff key s).0 e, ([], servers, refl, tt))
    | inr e ↦ rw e (
        skip s servers (search key servers) (λ o. cc ((is_match-IsOpen_iff key s).1 o))
          (search-IsLookup servers))
  ]

-- A key finds the first server in the order of the search that owns it, is of the Cloudflare type,
-- confirmed and not archived; it finds none exactly where no server is so, or the key is empty.
pub find_by_key-IsLookup :
    (key : Text) (servers : List Server) → IsLookup key servers (find_by_key key servers)
unfolding find_by_key
find_by_key-IsLookup [] servers = inl refl
find_by_key-IsLookup (c ∷ key) servers = search-IsLookup (c ∷ key) (λ e. cc) servers

search-first :
    (key : Text) (server : Server) (before after : List Server)
    → IsOpen key server
    → All (λ s. ¬ IsOpen key s) before
    → search key (before ++ server ∷ after) ≡ some server
unfolding search
search-first key server [] after opened _ = rw ((is_match-IsOpen_iff key server).1 opened) refl
search-first key server (s ∷ before) after opened (closed, earlier) =
    elim (Bool-cases (is_match key s)) [
      | inl e ↦ absurd (closed ((is_match-IsOpen_iff key s).0 e))
      | inr e ↦ rw e (search-first key server before after opened earlier)
    ]

-- No other server than the one that is found fits the description.
pub IsLookup-find_by_key :
    (key : Text) (servers : List Server) (server : Server)
    → IsLookup key servers (some server)
    → find_by_key key servers ≡ some server
unfolding find_by_key
IsLookup-find_by_key [] servers server (filled, _, _) = absurd (filled refl)
IsLookup-find_by_key (c ∷ key) servers server (filled, opened, (before, after, split, earlier)) =
    rw split (search-first (c ∷ key) server before after opened earlier)
