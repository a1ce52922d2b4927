-- ===== src/Server.antt =====
-- lib/server: what the routes go through.
pub mod RateLimit
pub mod Auth
pub mod RelayAuth
