-- ===== src/Host/Vmm.antt =====
-- crates/spawnr/src/vmm.rs: `Vmm::status`, `start`, `cleanup_failed_start`, `stop` and `stop_network` of
-- one machine. What they call outside process.rs is the interface `Machinery`.
pub mod Hostname
use spawnr.Prelude.{ℕ, Bool, true, false, ◌&&◌, Option, none, some, Result, ok, err}
use spawnr.Prelude.Actions.{Action, ◌>>=◌, ◌>>◌, give, attempt, always}
use spawnr.Host.Process.{ProcessIdentity, ManagedProcessStatus, missing, running, stale, is_running}
use spawnr.Host.Process.Os.{Os, Helper, vmm, network, Failure, also}
use spawnr.Host.Process.Signals.{
  is_current, inspect, remove_file, remove_stale_file, wait_for_exit, terminate, terminate_spawned,
}

pub data VmmStatus : Type 0 where
  vmm_stopped vmm_running vmm_degraded : VmmStatus

pub record Machinery (o : Os) : Type 0 where
  pub assert_owned : Action o.World Failure (Unit {0})
  pub assert_domain_layout : Action o.World Failure (Unit {0})
  pub clear_session : Action o.World Failure (Unit {0})
  -- `let _ = cloud_hypervisor_request(..)`, for the power button and the shutdown.
  pub power_button : o.World → Unit {0} × o.World
  pub shutdown : o.World → Unit {0} × o.World
  -- `command_with_agent` and `network_command`: the command lines.
  pub command : Action o.World Failure (Unit {0})
  pub network_command : Action o.World Failure (Unit {0})
  -- `spawn_managed` with the helper's command and PID file.
  pub spawn_managed : Helper → Action o.World Failure ProcessIdentity
  -- `wait_for_socket`: passt's socket, and the API socket.
  pub wait_for_socket : Helper → Action o.World Failure (Unit {0})
  -- `expose_ssh_agent`, with `persist` of the link that it made.
  pub expose_ssh_agent : Action o.World Failure (Unit {0})

abbrev pub graceful_timeout : ℕ
graceful_timeout = 15000

abbrev pub force_timeout : ℕ
force_timeout = 3000

abbrev pub status_of : Bool → Bool → VmmStatus
status_of true true = vmm_running
status_of false false = vmm_stopped
status_of true false = vmm_degraded
status_of false true = vmm_degraded

abbrev pub error_of : Result Failure (Unit {0}) → Option Failure
error_of (ok _) = none
error_of (err e) = some e

-- `first_error.get_or_insert(..)`
abbrev pub or_first : Option Failure → Option Failure → Option Failure
or_first none second = second
or_first (some e) second = some e

abbrev pub with_cleanup : Failure → Result Failure (Unit {0}) → Failure
with_cleanup primary (ok _) = primary
with_cleanup primary (err e) = also primary e

module _ (o : Os) (m : Machinery o) where
  unfoldable pub status : Action o.World Failure VmmStatus
  status = do
    v ← inspect o vmm
    n ← inspect o network
    give (ok (status_of (is_running v) (is_running n)))

  abbrev pub stop_network_of : ManagedProcessStatus → Action o.World Failure (Unit {0})
  stop_network_of missing = give (ok tt)
  stop_network_of (stale p) = remove_file o network p
  stop_network_of (running p) = terminate o p force_timeout >> remove_file o network p

  unfoldable pub stop_network : Action o.World Failure (Unit {0})
  stop_network = inspect o network >>= stop_network_of

  -- The session is cleared unless something failed before.
  abbrev pub finish : Option Failure → Action o.World Failure (Unit {0})
  finish none = m.clear_session
  finish (some e) = give (err e)

  abbrev pub shutdown_unless : Bool → Action o.World Failure (Unit {0})
  shutdown_unless true = give (ok tt)
  shutdown_unless false = always m.shutdown

  abbrev pub terminate_unless : ProcessIdentity → Bool → Action o.World Failure (Unit {0})
  terminate_unless p true = give (ok tt)
  terminate_unless p false = terminate o p force_timeout

  abbrev pub remove_unless : ProcessIdentity → Bool → Action o.World Failure (Unit {0})
  remove_unless p true = give (ok tt)
  remove_unless p false = remove_file o vmm p

  unfoldable pub stop_running : ProcessIdentity → Action o.World Failure (Option Failure)
  stop_running p = do
    always m.power_button
    exited ← wait_for_exit o p graceful_timeout
    shutdown_unless exited
    gone ← wait_for_exit o p force_timeout
    result ← attempt (terminate_unless p gone)
    current ← is_current o p
    remove_unless p current
    give (ok (error_of result))

  -- The `match` of `stop`: its first error.
  abbrev pub stop_vmm : ManagedProcessStatus → Action o.World Failure (Option Failure)
  stop_vmm missing = give (ok none)
  stop_vmm (stale p) = remove_file o vmm p >>= λ _. give (ok none)
  stop_vmm (running p) = stop_running p

  unfoldable pub stop : Action o.World Failure (Unit {0})
  stop = do
    m.assert_owned
    v ← inspect o vmm
    first_error ← stop_vmm v
    result ← attempt stop_network
    finish (or_first first_error (error_of result))

  abbrev pub clean_vmm : Option ProcessIdentity → Action o.World Failure (Unit {0})
  clean_vmm none = give (ok tt)
  clean_vmm (some p) = terminate_spawned o vmm p force_timeout >> remove_file o vmm p

  unfoldable pub cleanup_failed_start :
      Option ProcessIdentity → ProcessIdentity → Action o.World Failure (Unit {0})
  cleanup_failed_start v n = do
    first ← attempt (clean_vmm v)
    second ← attempt (terminate_spawned o network n force_timeout >> remove_file o network n)
    finish (or_first (error_of first) (error_of second))

  -- `return Err(with_cleanup(error, self.cleanup_failed_start(..)))` on an error.
  abbrev pub or_cleanup :
      {A : Type 0}
      → Option ProcessIdentity
      → ProcessIdentity
      → Result Failure A
      → Action o.World Failure A
  or_cleanup v n (ok a) = give (ok a)
  or_cleanup v n (err e) =
      attempt (cleanup_failed_start v n) >>= λ cleanup. give (err (with_cleanup e cleanup))

  -- The attempt of a step, with the cleanup after a failure.
  abbrev pub checked :
      {A : Type 0}
      → Option ProcessIdentity
      → ProcessIdentity
      → Action o.World Failure A
      → Action o.World Failure A
  checked v n step = attempt step >>= or_cleanup v n

  -- The part of `start` after the network helper `n` was spawned.
  unfoldable pub boot : ProcessIdentity → Action o.World Failure (Unit {0})
  boot n = do
    checked none n (m.wait_for_socket network)
    checked none n m.expose_ssh_agent
    p ← checked none n (m.spawn_managed vmm)
    checked (some p) n (m.wait_for_socket vmm)

  -- What is left of the VMM of an earlier start.
  abbrev pub repair : ManagedProcessStatus → Action o.World Failure (Unit {0})
  repair (running p) = stop
  repair (stale p) = remove_stale_file o vmm >>= λ _. stop_network
  repair missing = stop_network

  unfoldable pub start_fresh : ManagedProcessStatus → Action o.World Failure (Unit {0})
  start_fresh v = do
    repair v
    m.clear_session
    m.command
    m.network_command
    n ← m.spawn_managed network
    boot n

  abbrev pub start_unless : ManagedProcessStatus → Bool → Action o.World Failure (Unit {0})
  start_unless v true = give (ok tt)
  start_unless v false = start_fresh v

  unfoldable pub start : Action o.World Failure (Unit {0})
  start = do
    m.assert_domain_layout
    v ← inspect o vmm
    n ← inspect o network
    start_unless v (is_running v && is_running n)
