-- ===== src/SumDb.antt =====
-- The auditor of the Go checksum database (sumdbaudit/).
pub mod Client
pub mod Database
pub mod Service
mod Tests
