-- ===== src/Fetchmail.antt =====
-- mail_cloudflare/models/fetchmail_server.py, a module for each group of its functions.
pub mod Configuration
pub mod Signature
pub mod Envelope
pub mod Server
pub mod Inbound
pub mod Credentials
pub mod Confirm
pub mod Forms
pub mod Table
