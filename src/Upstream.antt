-- ===== src/Upstream.antt =====
-- upstream.rs: the servers that queries are forwarded to, and the connections to them.
pub mod Pool
pub mod Spec
pub mod Endpoint
pub mod Framing
pub mod Connect
pub mod Bootstrap
pub mod Exchange
