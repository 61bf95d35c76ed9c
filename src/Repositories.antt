-- ===== src/Repositories.antt =====
-- app/infrastructure/database/repositories.py, a child for each repository.
pub mod Queue
pub mod Screenshots
pub mod Sessions
pub mod Users
pub mod Breaks
pub mod Activity
