-- ===== src/Config.antt =====
-- config/config.go: the configuration, its validation and its normalisation.
pub mod Defs
pub mod Validate
pub mod Normalize
pub mod Normal
pub mod Valid
pub mod Load
