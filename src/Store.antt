-- ===== src/Store.antt =====
-- The repositories of packages/application/src/documents/memory-adapters.ts, behind the ports of
-- packages/domain/src/ports/repositories.ts.
pub mod Rows
pub mod Documents
pub mod Sessions
pub mod Signers
pub mod Ledger
