-- ===== src/Tests.antt =====
-- Runs at concrete inputs, and each theorem with hypotheses at an input that meets them.
mod Sessions
mod Keys
mod Sync
mod Tracking
mod Cleanup
mod Restart
mod Policy
mod Screens
mod Network
mod Workers
