-- ===== src/Host/Process/Signals.antt =====
-- Inspecting, signalling and waiting for the processes of a machine.
use spawnr.Prelude.{ℕ, zero, suc, ◌+◌, ◌/◌, Bool, true, false, not, leb, ok, err, ensure}
use spawnr.Prelude.Actions.{Action, ◌>>=◌, ◌>>◌, give, always}
use spawnr.Host.Process
use spawnr.Host.Process.{
  ProcessIdentity, ManagedProcessStatus, missing, running, stale, matches_running_process,
  inspect_pid_file, may_remove, read_pid_file,
}
use spawnr.Host.Process.Os.{
  Os, Helper, Signal, sigterm, sigkill, Failure, changed_identity, did_not_exit, out_of_fuel, lift,
  call,
}

module _ (o : Os) where
  -- `identity.is_current()`
  unfoldable pub is_current : ProcessIdentity → Action o.World Failure Bool
  is_current p = always o.procfs >>= λ h. give (lift (matches_running_process h p))

  -- `inspect_pid_file` of a helper's file: the file first, then procfs.
  unfoldable pub inspect : Helper → Action o.World Failure ManagedProcessStatus
  inspect h = do
    file ← always (o.pid_file h)
    host ← always o.procfs
    give (lift (inspect_pid_file host file))

  unfoldable pub unlink_if : Helper → Bool → Action o.World Failure (Unit {0})
  unlink_if h true = call (o.unlink h)
  unlink_if h false = give (ok tt)

  -- `remove_pid_file`
  unfoldable pub remove_file : Helper → ProcessIdentity → Action o.World Failure (Unit {0})
  remove_file h expected = do
    file ← always (o.pid_file h)
    recorded ← give (lift (read_pid_file file))
    go ← give (lift (may_remove expected recorded))
    unlink_if h go

  abbrev pub removed_stale : Helper → ManagedProcessStatus → Action o.World Failure Bool
  removed_stale h missing = give (ok false)
  removed_stale h (running p) = give (err (Failure.os Process.Error.still_running))
  removed_stale h (stale p) = remove_file h p >>= λ _. give (ok true)

  -- `remove_stale_pid_file`
  unfoldable pub remove_stale_file : Helper → Action o.World Failure Bool
  remove_stale_file h = inspect h >>= removed_stale h

  -- After the recheck, through the descriptor or by `kill`.
  abbrev pub send_if : Bool → ProcessIdentity → Signal → Bool → Action o.World Failure Bool
  send_if fd p s false = give (ok false)
  send_if true p s true = call (o.pidfd_send p.pid s)
  send_if false p s true = call (o.kill p.pid s)

  unfoldable pub send_signal_checked : ProcessIdentity → Signal → Action o.World Failure Bool
  send_signal_checked p s = do
    fd ← call (o.pidfd_open p.pid)
    current ← is_current p
    send_if fd p s current

  -- Before the deadline, 50 ms of sleep, and the loop again.
  abbrev pub sleep_unless : Action o.World Failure Bool → Bool → Action o.World Failure Bool
  sleep_unless again true = give (ok false)
  sleep_unless again false = always (λ w. (tt, o.sleep 50 w)) >>= λ _. again

  abbrev pub look_again : ℕ → Action o.World Failure Bool → Bool → Action o.World Failure Bool
  look_again deadline again true = give (ok true)
  look_again deadline again false = always o.now >>= λ t. sleep_unless again (leb deadline t)

  -- The loop of the two waits, which asks `gone` in every round; on fuel.
  unfoldable pub wait_loop : Action o.World Failure Bool → ℕ → ℕ → Action o.World Failure Bool
  wait_loop gone deadline zero = give (err out_of_fuel)
  wait_loop gone deadline (suc fuel) = gone >>= look_again deadline (wait_loop gone deadline fuel)

  -- A round for each 50 ms, and two.
  abbrev pub rounds : ℕ → ℕ
  rounds timeout = suc (suc (timeout / 50))

  unfoldable pub wait_until : Action o.World Failure Bool → ℕ → Action o.World Failure Bool
  wait_until gone timeout =
      always o.now >>= λ start. wait_loop gone (start + timeout) (rounds timeout)

  abbrev pub has_exited : ProcessIdentity → Action o.World Failure Bool
  has_exited p = is_current p >>= λ current. give (ok (not current))

  unfoldable pub wait_for_exit : ProcessIdentity → ℕ → Action o.World Failure Bool
  wait_for_exit p timeout = wait_until (has_exited p) timeout

  unfoldable pub wait_for_child : Helper → ℕ → Action o.World Failure Bool
  wait_for_child h timeout = wait_until (call (o.try_wait h)) timeout

  unfoldable pub kill_if : ProcessIdentity → Bool → Action o.World Failure (Unit {0})
  kill_if p true = give (ok tt)
  kill_if p false = do
    sent ← send_signal_checked p sigkill
    give (ensure sent (changed_identity sigkill))
    exited ← wait_for_exit p 2000
    give (ensure exited (did_not_exit sigkill))

  unfoldable pub wait_if : ProcessIdentity → ℕ → Bool → Action o.World Failure (Unit {0})
  wait_if p timeout false = give (ok tt)
  wait_if p timeout true = wait_for_exit p timeout >>= kill_if p

  unfoldable pub terminate : ProcessIdentity → ℕ → Action o.World Failure (Unit {0})
  terminate p timeout = send_signal_checked p sigterm >>= wait_if p timeout

  unfoldable pub kill_child_if : Helper → ProcessIdentity → Bool → Action o.World Failure (Unit {0})
  kill_child_if h p true = give (ok tt)
  kill_child_if h p false = do
    sent ← send_signal_checked p sigkill
    give (ensure sent (changed_identity sigkill))
    exited ← wait_for_child h 2000
    give (ensure exited (did_not_exit sigkill))

  unfoldable pub terminate_child_if :
      Helper → ProcessIdentity → ℕ → Bool → Action o.World Failure (Unit {0})
  terminate_child_if h p timeout true = give (ok tt)
  terminate_child_if h p timeout false = do
    sent ← send_signal_checked p sigterm
    give (ensure sent (changed_identity sigterm))
    exited ← wait_for_child h timeout
    kill_child_if h p exited

  -- The child is the one that was spawned for `h`, with the identity `p`.
  unfoldable pub terminate_spawned :
      Helper → ProcessIdentity → ℕ → Action o.World Failure (Unit {0})
  terminate_spawned h p timeout = call (o.try_wait h) >>= terminate_child_if h p timeout
