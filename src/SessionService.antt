-- ===== src/SessionService.antt =====
-- app/services/session_service.py: the machine's actions with their rows, and the restoration.
pub mod Persist
pub mod Restore
pub mod Lists
pub mod Shapes
pub mod Steps
pub mod Ends
pub mod Restart
pub mod Days
pub mod Unsaved
pub mod Whole
pub mod Gate
pub mod Captures
pub mod View
pub mod Display
