-- ===== src/Host/Process/Waiting/InTime.antt =====
-- Signals, waits and terminations never run out of rounds.
use spawnr.Prelude.{ℕ, ◌≡◌, Bool, true, false, err, ensure}
use spawnr.Prelude.Actions.{Action, ◌>>=◌, give}
use spawnr.Host.Process.{ProcessIdentity}
use spawnr.Host.Process.Os.{
  Os, Helper, Signal, sigterm, sigkill, Failure, changed_identity, did_not_exit, out_of_fuel, call,
}
use spawnr.Host.Process.Signals.{
  is_current, send_if, send_signal_checked, has_exited, wait_for_exit, wait_for_child, kill_if,
  wait_if, terminate, kill_child_if, terminate_child_if, terminate_spawned,
}
use spawnr.Host.Process.Waiting.{
  Clock, Ends, >>=-Ends, always-Ends, call-Ends, give-Ends, lift_ends, wait_until-Ends,
}

module _ (o : Os) (c : Clock o) where
  is_current-Ends : (p : ProcessIdentity) → Ends o c (is_current o p)
  unfolding is_current
  is_current-Ends p =
      >>=-Ends o c (always-Ends o c c.of_procfs) (λ h. give-Ends o c _ (lift_ends o c _))

  has_exited-Ends : (p : ProcessIdentity) → Ends o c (has_exited o p)
  has_exited-Ends p = >>=-Ends o c (is_current-Ends p) (λ b. give-Ends o c _ (λ e. cc))

  wait_for_exit-Ends : (p : ProcessIdentity) (t : ℕ) → Ends o c (wait_for_exit o p t)
  unfolding wait_for_exit
  wait_for_exit-Ends p t = wait_until-Ends o c (has_exited o p) t (has_exited-Ends p)

  wait_for_child-Ends : (h : Helper) (t : ℕ) → Ends o c (wait_for_child o h t)
  unfolding wait_for_child
  wait_for_child-Ends h t =
      wait_until-Ends o c (call (o.try_wait h)) t (call-Ends o c (c.of_try_wait h))

  send_if-Ends :
      (fd : Bool) (p : ProcessIdentity) (s : Signal) (b : Bool) → Ends o c (send_if o fd p s b)
  send_if-Ends fd p s false = give-Ends o c _ (λ e. cc)
  send_if-Ends true p s true = call-Ends o c (c.of_pidfd_send p.pid s)
  send_if-Ends false p s true = call-Ends o c (c.of_kill p.pid s)

  send_signal_checked-Ends :
      (p : ProcessIdentity) (s : Signal) → Ends o c (send_signal_checked o p s)
  unfolding send_signal_checked
  send_signal_checked-Ends p s =
      >>=-Ends o c (call-Ends o c (c.of_pidfd_open p.pid))
        (λ fd. >>=-Ends o c (is_current-Ends p) (λ b. send_if-Ends fd p s b))

  ensure_changed-Ends : (b : Bool) (s : Signal) → Ends o c (give (ensure b (changed_identity s)))
  ensure_changed-Ends true s = give-Ends o c _ (λ e. cc)
  ensure_changed-Ends false s = give-Ends o c _ (λ e. cc)

  ensure_exit-Ends : (b : Bool) (s : Signal) → Ends o c (give (ensure b (did_not_exit s)))
  ensure_exit-Ends true s = give-Ends o c _ (λ e. cc)
  ensure_exit-Ends false s = give-Ends o c _ (λ e. cc)

  -- SIGKILL, and the wait after it.
  kill-Ends :
      (p : ProcessIdentity) (wait : Action o.World Failure Bool)
      → Ends o c wait
      → Ends o c (
          send_signal_checked o p sigkill >>= λ sent.
          give (ensure sent (changed_identity sigkill)) >>= λ _.
          wait >>= λ exited. give (ensure exited (did_not_exit sigkill)))
  kill-Ends p wait x = >>=-Ends o c (send_signal_checked-Ends p sigkill) (λ sent.
      >>=-Ends o c (ensure_changed-Ends sent sigkill)
        (λ _. >>=-Ends o c x (λ exited. ensure_exit-Ends exited sigkill)))

  kill_if-Ends : (p : ProcessIdentity) (b : Bool) → Ends o c (kill_if o p b)
  unfolding kill_if
  kill_if-Ends p true = give-Ends o c _ (λ e. cc)
  kill_if-Ends p false = kill-Ends p _ (wait_for_exit-Ends p 2000)

  wait_if-Ends : (p : ProcessIdentity) (t : ℕ) (b : Bool) → Ends o c (wait_if o p t b)
  unfolding wait_if
  wait_if-Ends p t false = give-Ends o c _ (λ e. cc)
  wait_if-Ends p t true = >>=-Ends o c (wait_for_exit-Ends p t) (λ b. kill_if-Ends p b)

  terminate-Ends : (p : ProcessIdentity) (t : ℕ) → Ends o c (terminate o p t)
  unfolding terminate
  terminate-Ends p t = >>=-Ends o c (send_signal_checked-Ends p sigterm) (λ b. wait_if-Ends p t b)

  kill_child_if-Ends :
      (h : Helper) (p : ProcessIdentity) (b : Bool) → Ends o c (kill_child_if o h p b)
  unfolding kill_child_if
  kill_child_if-Ends h p true = give-Ends o c _ (λ e. cc)
  kill_child_if-Ends h p false = kill-Ends p _ (wait_for_child-Ends h 2000)

  terminate_child_if-Ends :
      (h : Helper) (p : ProcessIdentity) (t : ℕ) (b : Bool)
      → Ends o c (terminate_child_if o h p t b)
  unfolding terminate_child_if
  terminate_child_if-Ends h p t true = give-Ends o c _ (λ e. cc)
  terminate_child_if-Ends h p t false = >>=-Ends o c (send_signal_checked-Ends p sigterm) (λ sent.
      >>=-Ends o c (ensure_changed-Ends sent sigterm)
        (λ _. >>=-Ends o c (wait_for_child-Ends h t) (λ b. kill_child_if-Ends h p b)))

  terminate_spawned-Ends :
      (h : Helper) (p : ProcessIdentity) (t : ℕ) → Ends o c (terminate_spawned o h p t)
  unfolding terminate_spawned
  terminate_spawned-Ends h p t =
      >>=-Ends o c (call-Ends o c (c.of_try_wait h)) (λ b. terminate_child_if-Ends h p t b)

  -- Neither termination runs out of the rounds of its waiting loops, whatever the timeout: with a
  -- clock that does not go back and passes the time that a loop sleeps.
  pub terminate-in_time :
      (h : Helper) (p : ProcessIdentity) (t : ℕ) (w : o.World)
      → ((terminate o p t w).0 ≡ err out_of_fuel → ⊥)
        × ((terminate_spawned o h p t w).0 ≡ err out_of_fuel → ⊥)
  terminate-in_time h p t w = ((terminate-Ends p t).ends w, (terminate_spawned-Ends h p t).ends w)
