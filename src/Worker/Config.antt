-- ===== src/Worker/Config.antt =====
-- The result of `loadConfig` in worker/src/config.ts, as far as the queue reads it. `zod` validates
-- it; an operation that loads it takes none where that raises `ConfigError`.
use odoo_cloudflare_email.Prelude.{ℕ, Option, none, some, List}
use odoo_cloudflare_email.Text.{Text}

pub record AccessCredentials : Type 0 where
  pub client_id : Text
  pub client_secret : Text

pub record WorkerConfig : Type 0 where
  pub inbound_url : Text
  pub webhook_secret : Text
  pub access : Option AccessCredentials
  pub retention_ms : ℕ
  pub max_attempts : ℕ
  pub backoff_seconds : List ℕ
  pub delivery_delay_ms : ℕ

-- `deliveryDelayMs`: a broken configuration delays nothing.
unfoldable pub delivery_delay_ms : Option WorkerConfig → ℕ
delivery_delay_ms none = 0
delivery_delay_ms (some config) = config.delivery_delay_ms
