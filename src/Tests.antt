-- ===== src/Tests.antt =====
-- Tests on concrete inputs, and the theorems at inputs where their hypotheses hold.
mod Content
mod Body
mod Outbound
mod Network
mod Inbound
mod Servers
mod Outgoing
mod Table
mod Worker
