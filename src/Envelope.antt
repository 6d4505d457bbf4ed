-- ===== src/Envelope.antt =====
-- The sender's commands on an envelope: packages/application/src/documents.
pub mod Requests
pub mod Public
pub mod Contacts
pub mod Prepare
pub mod Send
pub mod Sound
pub mod Void
