-- ===== src/Cache.antt =====
-- plugin/cache.rs: the response cache.
pub mod Keys
pub mod Shard
pub mod Key
pub mod Store
pub mod Serve
pub mod Expiry
pub mod Hits
pub mod Refreshing
