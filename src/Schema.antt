-- ===== src/Schema.antt =====
-- The JSON Schema subset of src/city2core/schema.py.
pub mod Equal
pub mod Resolve
pub mod Validate
