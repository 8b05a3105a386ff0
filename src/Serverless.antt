-- ===== src/Serverless.antt =====
-- The serverless log (serverless/).
pub mod Layout
pub mod Api
pub mod Client
pub mod Consensus
pub mod Storage
pub mod Gcs
pub mod Integrate
pub mod Slots
mod Tests
