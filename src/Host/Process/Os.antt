-- ===== src/Host/Process/Os.antt =====
-- What process.rs and vmm.rs use of the operating system for one machine: procfs, the clock, the two
-- PID files of the machine, signals and the children of this process. Between two operations the
-- world goes on; each of them is one observation, so the reads of one identity check are one.
use spawnr.Prelude.{ℕ, Bool, Result, ok, err}
use spawnr.Prelude.Actions.{Action}
use spawnr.Host.Process
use spawnr.Host.Process.{Host, PidFile, ProcessIdentity, Read}

-- The process whose PID file it is.
pub data Helper : Type 0 where
  vmm network : Helper

pub data Signal : Type 0 where
  sigterm sigkill : Signal

pub data Failure : Type 0 where
  os : Process.Error → Failure
  -- The `ensure!`s of `terminate` and `terminate_spawned`.
  changed_identity did_not_exit : Signal → Failure
  -- A failure of what vmm.rs calls, by a number.
  backend : ℕ → Failure
  -- `with_cleanup`
  also : Failure → Failure → Failure
  -- The model's own: a waiting loop ran out of rounds.
  out_of_fuel : Failure

pub record Os : Type 1 where
  pub World : Type 0
  pub procfs : World → Host × World
  -- `Instant::now`, in milliseconds.
  pub now : World → ℕ × World
  pub sleep : ℕ → World → World
  pub pid_file : Helper → World → Read PidFile × World
  -- `fs::remove_file` of a PID file, and `sync_parent`.
  pub unlink : Helper → World → Result Process.Error (Unit {0}) × World
  -- Whether `pidfd_open` gave a descriptor.
  pub pidfd_open : ℕ → World → Result Process.Error Bool × World
  -- `pidfd_send_signal` and `kill`: false is `ESRCH`.
  pub pidfd_send : ℕ → Signal → World → Result Process.Error Bool × World
  pub kill : ℕ → Signal → World → Result Process.Error Bool × World
  -- `child.try_wait()?.is_some()`
  pub try_wait : Helper → World → Result Process.Error Bool × World

abbrev pub lift : {A : Type 0} → Result Process.Error A → Result Failure A
lift (ok a) = ok a
lift (err e) = err (os e)

-- `op()?`
unfoldable pub call : {W A : Type 0} → (W → Result Process.Error A × W) → Action W Failure A
call op w = (lift (op w).0, (op w).1)
