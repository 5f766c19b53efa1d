-- ===== src/Agent/Command.antt =====
-- crates/spawnr-agent/src/command.rs: what a guest command is given, and how it is checked.
pub mod Environment
pub mod Capture
pub mod Arguments
