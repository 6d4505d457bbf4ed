-- ===== src/Signing.antt =====
-- The handlers behind a signing link: load-signer-session.ts, exchange-signing-token.ts and
-- signer-mutations.ts of packages/application/src/signing. `hashesEqual` of auth/csrf.ts compares the
-- bytes of two strings.
pub mod Png
pub mod Complete
pub mod Checks
pub mod Session
pub mod Acts
pub mod Links
pub mod Resolve
pub mod Sound
pub mod Loaded
pub mod Declined
pub mod Service
