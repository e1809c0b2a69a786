-- ===== src/Model.antt =====
-- src/city2core/model.py: JSON values, their canonical text and digests, identifiers, times.
pub mod Json
pub mod Canonical
pub mod Ids
