-- ===== src/Migrator.antt =====
-- The package migrator: scanning the migration files, planning which of them to run, and building
-- the execution steps.
pub mod Files
pub mod Database
pub mod Version
pub mod Generate
pub mod Json
pub mod Plan
pub mod Steps
pub mod Command
pub mod Target
pub mod Builder
pub mod Scanner
pub mod Allowed
