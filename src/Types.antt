-- ===== src/Types.antt =====
-- crates/forge-types: the shared identifier and value types.
pub mod Names
pub mod Oid
pub mod Size
pub mod Topics
pub mod Int
