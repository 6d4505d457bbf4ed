-- ===== src/Jobs.antt =====
-- The outbox: packages/application/src/jobs/memory-claimer.ts and process-outbox.ts, and
-- packages/domain/src/jobs/failures.ts.
pub mod Claimer
pub mod Processor
