-- ===== src/Serverless/Layout.antt =====
-- Where a serverless log keeps its data (serverless/api/layout).
pub mod Tile
pub mod Paths
