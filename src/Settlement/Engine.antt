-- ===== src/Settlement/Engine.antt =====
-- src/settlement/settlement-engine.service.ts: batches from simulation to their close. The reads that
-- a method makes before its transaction are a plan, and the transaction is a commit of that plan on
-- tables that may have changed since.
mod Tests
pub mod Plan
pub mod Assemble
pub mod Lifecycle
pub mod Close
pub mod Reads
pub mod Payout
