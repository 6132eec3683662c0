-- ===== src/Command.antt =====
-- crates/forge-command: the single writer of domain events and the state that it decides against.
pub mod Catalog
pub mod Refs
pub mod Platform
pub mod State
pub mod Service
pub mod Pulls
pub mod Execute
