-- ===== src/Server.antt =====
-- server.rs: `handle`, the path of every query from a listener to its reply.
pub mod Handle
pub mod Outcome
pub mod Percent
pub mod Listener
pub mod Reply
