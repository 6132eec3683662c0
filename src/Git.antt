-- ===== src/Git.antt =====
-- crates/forge-git: how git objects are kept in the log.
pub mod Bytes
pub mod Cache
pub mod Frame
