-- ===== src/Api.antt =====
-- mail_cloudflare/cloudflare_api.py: its constants, and a module for each group of its functions.
pub mod Host
pub mod Mime
pub mod Recipients
pub mod MessageIds
pub mod Headers
pub mod Content
pub mod Payload
pub mod Response
pub mod Token
pub mod Session
use odoo_cloudflare_email.Prelude.{ℕ, ◌*◌}
