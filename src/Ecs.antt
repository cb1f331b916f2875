-- ===== src/Ecs.antt =====
-- plugin/ecs.rs: the client subnet that is attached to a query, and its removal.
pub mod Address
pub mod Attach
pub mod Privacy
