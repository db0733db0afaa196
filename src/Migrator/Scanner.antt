-- ===== src/Migrator/Scanner.antt =====
-- The scanner of migrator/scanner.go.
pub mod Root
pub mod Names
pub mod Folder
pub mod Scripts
pub mod Tree
pub mod Opened
pub mod Local
pub mod Snapshots
pub mod Whole
