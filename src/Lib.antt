-- ===== src/Lib.antt =====
-- An e-signature service: senders prepare documents and send them to signers, who open a signing link,
-- read, consent, sign or decline; a worker flattens and finalizes what was signed. Every step is an event
-- of a hash-chained audit log.
--
-- The parts and their files:
--   Prelude            Booleans, lists and integers on the native numbers
--   Domain.Errors      the application errors and results (packages/domain/src/errors.ts)
--   Domain.Text        tests on texts and ids (packages/domain/src/organization-context.ts)
--   Domain.Json        the values of payloads
--   Domain.Statuses    the enumerations and, in Domain.Entities, the records of
--                      packages/domain/src/entities.ts
--   Domain.Lifecycle   packages/domain/src/document-lifecycle.ts: the transition tables, with the edges
--                      they have (Tables) and the histories they allow (Reachability)
--   Domain.SigningMode packages/domain/src/signing-mode.ts: assertSignerRouting (Routing) and
--                      canSignerActNow (Turns)
--   Domain.FieldGeometry packages/domain/src/field-geometry.ts, with what its layouts are (Layout). A
--                      coordinate is a double (Domain.Doubles), with sums that are rounded
--   Domain.Actor       packages/domain/src/request-actor.ts, packages/domain/src/ports/authorization.ts
--                      and packages/application/src/authorization/membership-policy.ts (Policy)
--   Domain.Payload     packages/domain/src/jobs/payload.ts and packages/domain/src/audit/payload.ts
--   Domain.Canonical   packages/domain/src/audit/canonical.ts
--   Store              the in-memory repositories of
--                      packages/application/src/documents/memory-adapters.ts: documents (Documents),
--                      signing sessions (Sessions), signers, fields and consents (Signers), and the audit
--                      log, outbox and idempotency records (Ledger). An operation takes the rows and
--                      returns its answer with the new rows, or the error it throws
--   Program            handlers over all the repositories; what was written before a throw stays written,
--                      as createMemoryUnitOfWork has it. Sound is the invariant that handlers keep
--   Signing            packages/application/src/signing/load-signer-session.ts (Checks, Session),
--                      exchange-signing-token.ts (Session), signer-mutations.ts (Acts), and
--                      packages/application/src/documents/signing-sessions.ts (Links, Resolve);
--                      complete-signing.ts (Complete, with what an answer means in Signed,
--                      Answers and Answered), packages/application/src/documents/png.ts (Png); Service serves the
--                      requests of signers and senders one after another
--   Domain.ObjectKeys  packages/domain/src/object-keys.ts, with whose a built key is (Tenants)
--   Envelope           the sender's commands of packages/application/src/documents: idempotency.ts
--                      (Requests, with what a repeated key finds in Requests.Replay),
--                      public-document.ts (Public), void-document.ts (Void), send-document.ts (Send), and
--                      replace-preparation.ts (Contacts, Prepare). Sound has what they keep
--   Jobs               packages/application/src/jobs/memory-claimer.ts (Claimer),
--                      packages/application/src/jobs/process-outbox.ts with
--                      packages/domain/src/jobs/failures.ts (Processor). The delay before a retry, which
--                      packages/domain/src/jobs/backoff.ts computes in floating point, is an argument
--   Audit              packages/application/src/audit/verify-audit-chain.ts (Verify), with which logs have
--                      no failure (Verify.Accepts) and when an artifact is as recorded
--                      (Verify.Artifacts). The artifact, the object storage and the
--                      checkpoint store are arguments
--   Examples           concrete rows and requests
--
-- A handler calls the repositories and the domain rules in the order of the source. Ids, tokens, the
-- clock, the token hasher, the ISO text of a time, the SHA-256 digest of a serialized value, the envelope
-- policy, the consent catalog, the object storage, the base64 decoder and the reading of stored answers
-- are arguments: what stands behind them is not code of the repository, or is configuration. Times and versions are natural numbers. A text is compared and walked by its code
-- points. Every function is structurally recursive. Only unit_of of Domain.Doubles takes fuel, as much as
-- the number that it rounds, which Domain.Doubles.fuel_suffices shows to be enough.
--
-- Not modelled: the HTTP service, the web client, the worker's loop, the database and object storage,
-- which are input and output; log and metric callbacks, and the notifier. The creation of
-- drafts, uploads and their inspection, and flattening are left out, and of the verification of the audit
-- chain its authorization and the loop over an organization.
mod Prelude
mod Examples
pub mod Domain
pub mod Store
pub mod Program
pub mod Signing
pub mod Envelope
pub mod Audit
pub mod Jobs
