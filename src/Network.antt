-- ===== src/Network.antt =====
-- app/infrastructure/network: the HTTP client's classification, and the sync provider over it.
pub mod Http
pub mod Classes
pub mod Sync
pub mod Confirmed
pub mod Uploaded
pub mod Dummy
