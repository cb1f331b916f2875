-- ===== src/Runtime.antt =====
-- runtime.rs: what is made of a configuration before anything is served.
pub mod Graph
pub mod Settings
pub mod Build
pub mod Live
