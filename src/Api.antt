-- ===== src/Api.antt =====
-- api.rs: the HTTP API.
pub mod Origin
pub mod Flush
pub mod Report
pub mod Query
