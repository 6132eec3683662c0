-- ===== src/Auth.antt =====
-- crates/forge-auth: credentials.
pub mod Scope
