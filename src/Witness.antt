-- ===== src/Witness.antt =====
-- The witness (witness/golang/internal/witness and its persistence interface).
pub mod Status
pub mod Proof
pub mod Persistence
pub mod Update
pub mod Http
mod Tests
