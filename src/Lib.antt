-- ===== src/Lib.antt =====
-- Verification of spawnr, a command line that clones repositories into virtual machines.
--
-- The host side (crates/spawnr) keeps a map of machine records in a state file, owns a storage
-- directory per machine, and runs a hypervisor and a network helper for each machine that is up. The
-- guest side (crates/spawnr-agent) answers requests over vsock: it configures the session directory
-- and runs commands in an environment that it composes. Both speak the framing of
-- crates/spawnr-protocol.
--
-- Which file models what:
--   Protocol, Protocol/Frames          crates/spawnr-protocol/src/lib.rs: messages, `write_json`,
--                                      `read_json`, `write_stream_frame`, `read_stream_frame`
--   Agent/Session, .../Values          crates/spawnr-agent/src/session.rs: the image environment and
--                                      the checks and texts of the Git configuration
--   Agent/Session/Store, .../Configure session.rs `configure`, with lib.rs `write_private` and
--                                      agent_proxy.rs `set_enabled`; a step takes the directory to
--                                      the directory that it leaves and a result, and `Faults` says
--                                      which operations fail
--   Agent/Command/Environment          crates/spawnr-agent/src/command.rs `populate_environment`
--   Agent/Command/Arguments, .../Capture  command.rs: the checks of a request, `read_bounded`
--   Agent/Mount                        crates/spawnr-agent/src/mount.rs: the table of mounts
--   Agent/Reaper                       crates/spawnr-agent/src/reaper.rs: one pass of the reaper
--   Host/Names, Host/State             crates/spawnr/src/machine.rs (names), state.rs (records)
--   Host/State/Store                   state.rs: opening, locking, reading and saving the state file
--   Host/Files and its children        the operations of `std::fs`, on one tree of entries, and
--                                      paths.rs `create_private_dir`; no code of the repository else
--   Host/Storage, .../Disks, .../Sparse  crates/spawnr/src/storage.rs: the machine's directory and
--                                      its markers, the disks, `sparse_copy`; the other children
--                                      hold theorems
--   Host/Machine and its children      crates/spawnr/src/machine.rs: the commands. A computation `M`
--                                      takes the locked state (the map, and the backend's world) to
--                                      a result and the state that it leaves in any case
--   Host/Process                       crates/spawnr/src/process.rs: identities and PID files
--   Host/Process/Os, .../Signals       process.rs: signals, waiting and termination, over the
--                                      interface `Os` of what the operating system does
--   Host/Vmm and its children          crates/spawnr/src/vmm.rs: `start`, `cleanup_failed_start`,
--                                      `stop`, `status`; what else it calls is `Machinery`
--   Host/Oci and its children          crates/spawnr/src/oci.rs: references, prepared metadata, the
--                                      image environment, `validate_static_x86_64_elf`
--   Host/Runtime and its children      crates/spawnr/src/runtime.rs: lock and manifest
--   Prelude, Examples                  shared helpers; concrete inputs
--
-- Conventions. A text is the list of its code points, and `bytes` gives its UTF-8. A machine
-- integer keeps its bound or its wrap-around where the code depends on it. Errors are values of each
-- component's own type. The commands of machine.rs reach storage, hypervisor, guest and state file
-- only through the interface `Backend`, of which nothing is relied on. `journaled` is a backend with
-- a journal beside its world, in which a commit and a removal of storage are entered that report
-- success; the theorems on storage speak of the journal, and `Ownership` in Host/Machine/Quiet names
-- what the journal of any backend has.
--
-- Files. Host/Files has one tree of entries and a count of operations. A `Device` says which
-- operation breaks off, and what a removal or a write that breaks off has done until then; other
-- operations that break off do nothing. Since any choice is allowed, a process that is killed is the
-- case in which every operation from some time on breaks off. Two names of one file are two entries
-- with the same content, which the code never changes through one of them. No path leads through a
-- symbolic link.
--
-- Git and the kernel. A value of a Git configuration is read by the rules that git-config(1)
-- documents for double quotes; lseek(2) answers SEEK_DATA and SEEK_HOLE as documented, which inside a
-- hole is the offset itself; `Runs` says of a status line of procfs that its process runs.
--
-- Fuel. The waiting loops of process.rs have a round for each 50 ms of their timeout and two
-- more; with a clock that does not go back and passes what a loop sleeps, they never use them up.
-- `free_cid` searches vsock addresses with one more round than there are records: a round that
-- goes on leaves one record's address behind, as long as the search stays below 2 ^ 32.
-- `allocate_loop` has a round for each name to find and for each name taken: a candidate ends in
-- the number of its round, so a round that finds nothing meets a taken name that no other round
-- meets. The copy by extents has a turn for each byte of the file and one more, and
-- `write_all_at` one for each byte of its text: every turn moves on by a byte at least. Running
-- out is an error of the model's own in each. The loops over lists, texts and the reads of a
-- capture are structural.
--
-- Not modelled: the command lines of the hypervisor and the network helper, the probes of the host
-- (vmm.rs doctor), the search for mkfs.ext4 and `prepare_machine_environment` (storage.rs), the
-- tools that unpack and build images (the rest of oci.rs), installation of the runtime
-- (runtime_install.rs), the vsock client and service, the mounts themselves, printing, the
-- argument parser, JSON and semver, which are system calls, other programs or libraries, or stand
-- behind the interfaces above.
pub mod Agent
pub mod Examples
pub mod Host
pub mod Prelude
pub mod Protocol
