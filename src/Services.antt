-- ===== src/Services.antt =====
-- lib/services: what is done with the store and with the outside.
pub mod Judge
pub mod Jobs
pub mod Operations
pub mod Verification
pub mod Rounds
pub mod Market
pub mod Handoff
