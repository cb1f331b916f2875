-- ===== src/Config.antt =====
-- config.rs: the configuration file.
pub mod Paths
pub mod Types
pub mod Lift
pub mod Load
pub mod Same
