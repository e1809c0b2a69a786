-- ===== src/Tests.antt =====
-- A store with fixed library functions, calls on it, and the theorems at these calls.
pub mod Data
pub mod Commands
pub mod Calls
pub mod Leases
pub mod Actions
pub mod Memories
pub mod Schemas
pub mod Expansions
