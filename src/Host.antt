-- ===== src/Host.antt =====
-- crates/spawnr: the host command line. Each child models one part of it.
pub mod Names
pub mod Files
pub mod Storage
pub mod State
pub mod Machine
pub mod Runtime
pub mod Process
pub mod Vmm
pub mod Oci
