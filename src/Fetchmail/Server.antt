-- ===== src/Fetchmail/Server.antt =====
-- The records of `fetchmail.server`, and `_cloudflare_find_by_key`. The table is a list in the order
-- in which the model's search returns its records.
pub mod Lookup
use odoo_cloudflare_email.Prelude.{
  ℕ, Bool, true, false, ◌&&◌, Option, none, some, List, [], ◌∷◌, if◌then◌else◌, is_empty, ◌==◌,
}
use odoo_cloudflare_email.Text.{Text, codes, text_eq}

-- The fields that the code reads or writes; an empty field is none.
pub record Server : Type 0 where
  pub id : ℕ
  pub active : Bool
  pub server_type : Text
  pub state : Text
  pub webhook_key : Option Text
  pub webhook_secret : Option Text
  pub configuration : Option Text
  pub object_model : Option Text
  pub original : Bool
  pub attach : Bool
  pub date : Option ℕ

abbrev pub cloudflare_type : Text
cloudflare_type = codes "cloudflare"

abbrev pub done_state : Text
done_state = codes "done"

unfoldable pub has_text : Text → Option Text → Bool
has_text key none = false
has_text key (some value) = text_eq value key

-- The domain of the search; a search leaves out archived records unless it is told not to.
unfoldable pub is_match : Text → Server → Bool
unfolding has_text
is_match key server =
    has_text key server.webhook_key
    && (text_eq server.server_type cloudflare_type
        && (text_eq server.state done_state && server.active))

-- `search(domain, limit=1)`.
unfoldable pub search : Text → List Server → Option Server
search key [] = none
search key (server ∷ servers) = if is_match key server then some server else search key servers

-- `_cloudflare_find_by_key`.
unfoldable pub find_by_key : Text → List Server → Option Server
unfolding search
find_by_key key servers = if is_empty key then none else search key servers

-- `write({"date": now})` on the record with this id.
unfoldable pub write_date : ℕ → ℕ → List Server → List Server
write_date id now [] = []
write_date id now (server ∷ servers) =
    let rest = write_date id now servers in
    (if server.id == id then record server { date = some now } else server) ∷ rest
