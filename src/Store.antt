-- ===== src/Store.antt =====
-- src/city2core/store.py: the tables, transactions, the event log and idempotent commands.
pub mod States
pub mod Tables
pub mod Rows
pub mod Table
pub mod Tx
pub mod Post
pub mod Events
pub mod Command
pub mod Integrity
