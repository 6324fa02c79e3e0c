-- ===== src/Fetchmail/Credentials.antt =====
-- The webhook's key and secret: `create`, `write`,
-- `action_regenerate_cloudflare_webhook_secret`, and the confirmation in `button_confirm_login`.
-- `secrets.token_urlsafe` is a parameter, a sequence of texts with the number of those drawn as state;
-- `urlsplit` is a parameter. The ORM's own `write` sets the fields that the values name.
pub mod Kept
pub mod Rotation
use odoo_cloudflare_email.Prelude.{
  ℕ, suc, ◌+◌, Bool, true, false, not, ◌&&◌, ◌||◌, Option, none, some, List, [], ◌∷◌, if◌then◌else◌,
  is_empty, ◌++◌,
}
use odoo_cloudflare_email.Text.{Text, codes, text_eq, contains}
use odoo_cloudflare_email.Api.Mime.{or_empty}
use odoo_cloudflare_email.Fetchmail.Server.{Server, cloudflare_type, done_state}

-- The values of a create or a write that matter here: for each field none where the dict does not
-- name it, and some none for an empty value.
pub record Values : Type 0 where
  pub server_type : Option Text
  pub webhook_key : Option (Option Text)
  pub webhook_secret : Option (Option Text)
  pub configuration : Option (Option Text)
  pub state : Option Text

abbrev pub no_values : Values
no_values = record {
  server_type = none;
  webhook_key = none;
  webhook_secret = none;
  configuration = none;
  state = none;
}

-- `dict.setdefault`, and the value of a field after a write.
abbrev pub default_to {ℓ} : {A : Type ℓ} → A → Option A → Option A
default_to a none = some a
default_to a (some b) = some b

abbrev pub field_after {ℓ} : {A : Type ℓ} → Option A → A → A
field_after none old = old
field_after (some new) old = new

unfoldable pub is_cloudflare : Option Text → Bool
is_cloudflare none = false
is_cloudflare (some server_type) = text_eq server_type cloudflare_type

-- The ORM's `write` on one record.
unfoldable pub write_fields : Values → Server → Server
write_fields v s = record s {
  server_type = field_after v.server_type s.server_type;
  webhook_key = field_after v.webhook_key s.webhook_key;
  webhook_secret = field_after v.webhook_secret s.webhook_secret;
  configuration = field_after v.configuration s.configuration;
  state = field_after v.state s.state;
}

abbrev pub is_filled : Option Text → Bool
is_filled o = not (is_empty (or_empty o))

module _ (token : ℕ → Text) (contract : Text) where
  -- The values that `create` passes on; both tokens are drawn whether they are used or not.
  unfoldable pub create_values : Values → ℕ → Values × ℕ
  unfolding is_cloudflare
  create_values v n =
      if is_cloudflare v.server_type
      then (
        record v {
          webhook_key = default_to (some (token n)) v.webhook_key;
          webhook_secret = default_to (some (token (suc n))) v.webhook_secret;
          configuration = default_to (some contract) v.configuration;
        },
        suc (suc n),
      )
      else (v, n)

  -- `create` of one record, over the ORM's defaults.
  unfoldable pub create_server : Server → Values → ℕ → Server × ℕ
  unfolding create_values write_fields
  create_server blank v n = let (v', n') = create_values v n in (write_fields v' blank, n')

  -- `create`.
  unfoldable pub create : Server → List Values → ℕ → List Server × ℕ
  unfolding create_server
  create blank [] n = ([], n)
  create blank (v ∷ vals_list) n =
      let (s, n') = create_server blank v n in
      let (rest, n'') = create blank vals_list n' in (s ∷ rest, n'')

  -- A default for a field that the record leaves empty; a token is drawn only then.
  unfoldable pub credential : Option Text → Option (Option Text) → ℕ → Option (Option Text) × ℕ
  credential old given n =
      if is_filled old then (given, n) else (default_to (some (token n)) given, suc n)

  -- One round of the loop of `write`.
  unfoldable pub write_server : Values → Server → ℕ → Server × ℕ
  unfolding credential write_fields
  write_server v s n =
      let (key, n') = credential s.webhook_key v.webhook_key n in
      let (secret, n'') = credential s.webhook_secret v.webhook_secret n' in
      (
        write_fields
            (record v {
              webhook_key = key;
              webhook_secret = secret;
              configuration = default_to (some contract) v.configuration;
            })
            s,
        n'',
      )

  unfoldable pub write_loop : Values → List Server → ℕ → List Server × ℕ
  unfolding write_server
  write_loop v [] n = ([], n)
  write_loop v (s ∷ servers) n =
      let (s', n') = write_server v s n in
      let (rest, n'') = write_loop v servers n' in (s' ∷ rest, n'')

  unfoldable pub write_all : Values → List Server → List Server
  unfolding write_fields
  write_all v [] = []
  write_all v (s ∷ servers) = write_fields v s ∷ write_all v servers

  -- `write` on the records of a set.
  unfoldable pub write : Values → List Server → ℕ → List Server × ℕ
  unfolding write_loop write_all is_cloudflare
  write v servers n =
      if is_cloudflare v.server_type then write_loop v servers n else (write_all v servers, n)

  -- The loop of `action_regenerate_cloudflare_webhook_secret`.
  unfoldable pub regenerate : List Server → ℕ → List Server × ℕ
  unfolding write
  regenerate [] n = ([], n)
  regenerate (s ∷ servers) n =
      let (written, n') =
        write (record no_values { webhook_secret = some (some (token n)) }) (s ∷ []) (suc n) in
      let (rest, n'') = regenerate servers n' in (written ++ rest, n'')
