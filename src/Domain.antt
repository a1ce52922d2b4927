-- ===== src/Domain.antt =====
-- lib/domain: the data of an operation and the pure rules over it.
pub mod Types
pub mod Seed
pub mod Policy
pub mod Commitment
pub mod Confirmation
pub mod Transcripts
