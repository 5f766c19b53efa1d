-- ===== src/Agent.antt =====
-- crates/spawnr-agent: the guest side. Each child models one source file.
pub mod Session
pub mod Command
pub mod Mount
pub mod Reaper
