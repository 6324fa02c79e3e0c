-- ===== src/Worker.antt =====
-- The Email Worker, worker/src, which stores a message with its envelope and pushes it to Odoo's
-- webhook. R2, the runtime and the clock are its environment: what they answer is an argument.
pub mod Strings
pub mod Backoff
pub mod Rfc822
pub mod Sign
pub mod Config
pub mod Answer
pub mod Inbox
pub mod Attempt
pub mod Pass
pub mod Email
pub mod Handoff
