-- ===== src/Memory.antt =====
-- The memory service of src/city2core/memory.py.
pub mod Fields
pub mod Sort
pub mod Text
pub mod Validate
pub mod Rows
pub mod Create
pub mod Stale
pub mod Sweep
pub mod Review
pub mod Retrieve
pub mod Pack
pub mod Manifest
pub mod Context
pub mod Export
pub mod Lifecycle
pub mod Machine
