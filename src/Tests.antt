-- ===== src/Tests.antt =====
-- Runs of the theorems at concrete inputs.
pub mod Fixtures
pub mod Serving
pub mod Caching
pub mod Lookups
pub mod Wire
pub mod Loading
pub mod Upstreams
pub mod Admin
