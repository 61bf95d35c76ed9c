-- ===== src/SyncService.antt =====
-- app/services/sync_service.py. `Drain` has the state of a drain cycle, `Queue` and `Screenshots` the
-- two loops, `Cycle` the whole of sync_once and the recovery at startup.
pub mod Due
pub mod Drain
pub mod Queue
pub mod Deletion
pub mod Counts
pub mod Progress
pub mod Screenshots
pub mod Cycle
pub mod Files
pub mod Rules
pub mod Gate
pub mod Uploads
pub mod Recovered
pub mod Orphans
