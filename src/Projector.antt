-- ===== src/Projector.antt =====
-- crates/forge-projector: turning events into rows.
pub mod Users
pub mod Repos
pub mod Issues
pub mod Pulls
pub mod Runs
pub mod Twice
pub mod Apply
pub mod Drain
