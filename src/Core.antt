-- ===== src/Core.antt =====
-- src/city2core/core.py: the lifecycle of objectives, tasks, leases, results and actions.
pub mod Call
pub mod Rows
pub mod Transition
pub mod Task
pub mod Revise
pub mod Lease
pub mod Submit
pub mod Action
pub mod Objective
pub mod Lifecycle
pub mod Effect
pub mod Machine
pub mod Guards
