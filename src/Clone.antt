-- ===== src/Clone.antt =====
-- Cloning a log into a local database (clone/).
pub mod Bulk
pub mod Cloner
pub mod Database
pub mod Verify
mod Tests
