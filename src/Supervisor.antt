-- ===== src/Supervisor.antt =====
-- The package supervisor: the Neo4j process and its utilities, and what drives them.
pub mod Wrapper
pub mod Waiting
pub mod Threads
pub mod Utility
pub mod TsCmd
pub mod Helpers
pub mod Update
pub mod Http
pub mod Boot
