-- ===== src/ActivityService.antt =====
-- app/services/activity_service.py: active and idle periods of one session at a time, written to the
-- database as they begin and end.
pub mod Base
pub mod Lifecycle
pub mod Ticks
pub mod Open
pub mod SingleOpen
pub mod Pause
