-- ===== src/Matcher.antt =====
-- matcher.rs: domain sets, address sets, and the matchers of a sequence.
pub mod Suffix
pub mod DomainSet
pub mod Eval
