-- ===== src/Store.antt =====
-- lib/store: the snapshot store. Each method is the body of a mutation in a child of this module,
-- and `Mutation` runs a body under the optimistic version check.
pub mod Environment
pub mod Action
pub mod Ledger
pub mod Booking
pub mod Offers
pub mod Calls
pub mod Escalations
pub mod Mutation
pub mod Transcripts
pub mod Session
pub mod Configuration
