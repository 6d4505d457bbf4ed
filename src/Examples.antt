-- ===== src/Examples.antt =====
-- Concrete documents, signers and requests, and what the theorems say of them.
pub mod Parties
mod Rules
mod Rows
mod Requests
mod Outbox
mod Commands
mod Signatures
mod Audits
