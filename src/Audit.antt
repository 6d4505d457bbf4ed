-- ===== src/Audit.antt =====
-- packages/application/src/audit.
pub mod Verify
