-- ===== src/Fetchmail/Table.antt =====
-- The table of servers over time: each operation of the code on one of its records is a step, and so
-- is a deletion, which is core's. An operation on a set of records is a step for each of them.
pub mod Changes
pub mod Sound
pub mod Found
use odoo_cloudflare_email.Prelude.{
  ℕ, ◌≡◌, Bool, false, Option, none, List, [], ◌∷◌, ◌++◌, if◌then◌else◌,
}
use odoo_cloudflare_email.Text.{Text, text_eq}
use odoo_cloudflare_email.Errors.{ok}
use odoo_cloudflare_email.Api.Mime.{or_empty}
use odoo_cloudflare_email.Fetchmail.Server.{Server, cloudflare_type, write_date}
use odoo_cloudflare_email.Fetchmail.Credentials.{
  Values, is_filled, create_server, write, regenerate,
}
use odoo_cloudflare_email.Fetchmail.Confirm.{confirm}

-- The table, and how many tokens have been drawn.
pub record State : Type 0 where
  pub servers : List Server
  pub drawn : ℕ

-- Values that name no credential: the fields are read-only, and are generated.
pub record IsQuiet (v : Values) : Type 0 where
  pub no_key : v.webhook_key ≡ none
  pub no_secret : v.webhook_secret ≡ none

-- The ORM's defaults of a new record.
pub record IsBlank (s : Server) : Type 0 where
  pub other_type : text_eq s.server_type cloudflare_type ≡ false
  pub no_key : s.webhook_key ≡ none

-- A record at some place of the table is replaced.
pub record Replaced (t u : State) (s s' : Server) : Type 0 where
  pub before : List Server
  pub after : List Server
  pub old : t.servers ≡ before ++ s ∷ after
  pub new : u.servers ≡ before ++ s' ∷ after

module _ (token : ℕ → Text) (contract : Text) where
  pub data Step (t u : State) : Type 0 where
    created :
        (blank : Server) (v : Values) (before after : List Server)
        → IsBlank blank
        → IsQuiet v
        → t.servers ≡ before ++ after
        → u.servers ≡ before ++ (create_server token contract blank v t.drawn).0 ∷ after
        → u.drawn ≡ (create_server token contract blank v t.drawn).1
        → Step t u
    written :
        (v : Values) (s s' : Server)
        → IsQuiet v
        → write token contract v (s ∷ []) t.drawn ≡ (s' ∷ [], u.drawn)
        → Replaced t u s s'
        → Step t u
    regenerated :
        (s s' : Server)
        → regenerate token contract (s ∷ []) t.drawn ≡ (s' ∷ [], u.drawn)
        → Replaced t u s s'
        → Step t u
    confirmed :
        (urlsplit : Text → Text × Option Text) (base_url : Option Text) (s s' : Server)
        → confirm urlsplit base_url s ≡ ok s'
        → u.drawn ≡ t.drawn
        → Replaced t u s s'
        → Step t u
    delivered :
        (id now : ℕ) → u.servers ≡ write_date id now t.servers → u.drawn ≡ t.drawn → Step t u
    deleted :
        (s : Server) (before after : List Server)
        → t.servers ≡ before ++ s ∷ after
        → u.servers ≡ before ++ after
        → u.drawn ≡ t.drawn
        → Step t u

  pub data Reach (t : State) : State → Type 0 where
    here : Reach t t
    next : {u w : State} → Reach t u → Step u w → Reach t w

-- The key of a server, in a list of at most one.
abbrev pub own_key : Option Text → List Text
own_key o = if is_filled o then or_empty o ∷ [] else []

abbrev pub keys : List Server → List Text
keys [] = []
keys (s ∷ servers) = own_key s.webhook_key ++ keys servers
