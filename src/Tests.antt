-- ===== src/Tests.antt =====
-- Concrete runs of the definitions, and the theorems at concrete inputs.
mod Demo
mod Types
mod Bus
mod Command
mod Refs
mod Git
mod Auth
mod Hooks
mod Deliveries
mod Projector
mod Rows
