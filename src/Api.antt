-- ===== src/Api.antt =====
-- app/api: the handlers that the voice and message providers and the relays call.
pub mod Receipts
pub mod Callbacks
pub mod RelayEvents
pub mod Inbound
pub mod Takeover
pub mod Access
pub mod Recordings
pub mod Telephone
pub mod Actions
