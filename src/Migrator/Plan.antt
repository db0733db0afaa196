-- ===== src/Migrator/Plan.antt =====
-- migrator/plan.go: which files are run, and in which order the builder is called with them.
pub mod Folder
pub mod Versions
pub mod Run
pub mod Effect
pub mod Replan
pub mod Calls
pub mod Parts
pub mod Order
pub mod Snapshot
pub mod Total
pub mod Safe
