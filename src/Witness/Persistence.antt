-- ===== src/Witness/Persistence.antt =====
-- The persistence interface of the witness (witness/golang/internal/persistence/persistence.go):
-- its operations, and what its documentation promises of them.
pub mod InMemory
mod Defs
pub use Defs.*
