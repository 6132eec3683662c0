-- ===== src/Bus.antt =====
-- crates/forge-bus.
pub mod Writer
pub mod Tailer
