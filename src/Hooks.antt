-- ===== src/Hooks.antt =====
-- crates/forge-hooks: webhooks.
pub mod Target
pub mod Delivery
pub mod Worker
pub mod Matcher
