-- ===== src/Examples/Power/Runs.antt =====
-- Runs of the small machine: a start, a stop of what runs, and terminations.
use spawnr.Host.Process
use spawnr.Host.Process.Status.{Runs}
use spawnr.Host.Process.Gone.{Observed, terminate_not_live, terminate_spawned_not_live}
use spawnr.Prelude.{
  get_elem?, [], ◌∷◌, inr, Result, Bool, not, is_ok, ◌≡◌, refl, ap, arith, true, false, some, ok,
  err,
}
use spawnr.Prelude.Actions.{◌>>=◌, give, attempt, always}
use spawnr.Host.Process.{
  split_whitespace, inspect_pid_file, read_opened, matches_running_process, matches_stat,
  parse_state_and_start_time, after_close, words_from, take_word,
}
use spawnr.Host.Process.Os.{vmm, out_of_fuel, call}
use spawnr.Host.Process.Signals.{
  remove_stale_file, wait_for_child, terminate_child_if, kill_child_if, terminate,
  terminate_spawned, inspect, is_current, wait_for_exit, wait_until, wait_loop, wait_if, kill_if,
  remove_file, unlink_if, send_signal_checked,
}
use spawnr.Host.Process.Waiting.{Clock}
use spawnr.Host.Process.Waiting.InTime.{terminate-in_time}
use spawnr.Host.Vmm.{
  start, start_fresh, boot, cleanup_failed_start, stop, stop_network, stop_running,
}
use spawnr.Prelude.Text.{Str, codes}
use spawnr.Host.Names.{validate_name}
use spawnr.Host.Vmm.Hostname.{validate_machine_hostname, validate_machine_hostname-is_ok}
use spawnr.Examples.Power

abbrev both_up : Power.Box
both_up = record {
  clock = 0;
  up = record { of_vmm = true; of_network = true };
  file = record { of_vmm = true; of_network = true };
  spawned = record { of_vmm = false; of_network = false };
}

-- The network helper of a VMM that crashed, with the VMM's file.
abbrev half_up : Power.Box
half_up = record {
  clock = 0;
  up = record { of_vmm = false; of_network = true };
  file = record { of_vmm = true; of_network = true };
  spawned = record { of_vmm = false; of_network = false };
}

stopped : (stop Power.box_os Power.box_machinery both_up).0 ≡ ok tt
unfolding stop stop_network stop_running inspect is_current wait_for_exit wait_until wait_loop
    terminate wait_if kill_if remove_file unlink_if send_signal_checked call attempt give always
    ◌>>=◌ inspect_pid_file read_opened matches_running_process matches_stat
    parse_state_and_start_time after_close words_from take_word
stopped = refl

repaired : (start Power.box_os Power.box_machinery half_up).0 ≡ ok tt
unfolding start start_fresh boot cleanup_failed_start remove_stale_file stop stop_network
    stop_running inspect is_current wait_for_exit wait_until wait_loop terminate wait_if kill_if
    remove_file unlink_if send_signal_checked call attempt give always ◌>>=◌ inspect_pid_file
    read_opened matches_running_process matches_stat parse_state_and_start_time after_close
    words_from take_word
repaired = refl

box_clock : Clock Power.box_os
box_clock = record {
  time = λ w. w.clock;
  now_reads = λ w. refl;
  of_now = record { steady = λ w. omega arith };
  sleeps = λ t w. omega arith;
  of_procfs = record { steady = λ w. omega arith };
  of_pidfd_open = λ n. record { steady = λ w. omega arith };
  of_pidfd_send = λ n s. record { steady = λ w. omega arith };
  of_kill = λ n s. record { steady = λ w. omega arith };
  of_try_wait = λ h. record { steady = λ w. omega arith };
}

terminate-in_time_example :
    ((terminate Power.box_os (Power.identity vmm) 3000 both_up).0 ≡ err out_of_fuel → ⊥)
    × ((terminate_spawned Power.box_os vmm (Power.identity vmm) 3000 both_up).0 ≡ err out_of_fuel
        → ⊥)
terminate-in_time_example =
    terminate-in_time Power.box_os box_clock vmm (Power.identity vmm) 3000 both_up

validate_machine_hostname-is_ok_example :
    is_ok (validate_machine_hostname (codes "my-repo")) ≡ is_ok (validate_name (codes "my-repo"))
validate_machine_hostname-is_ok_example = validate_machine_hostname-is_ok (codes "my-repo")

abbrev words : Str
words = codes " S 1 2 3 4 5 6 7 8 9 10 11 12 13 14 15 16 17 18 x"

state_word : get_elem? (split_whitespace words) 0 ≡ some (b'S' ∷ [])
unfolding words_from take_word
state_word = refl

start_word : get_elem? (split_whitespace words) 19 ≡ some (codes "x")
unfolding words_from take_word
start_word = refl

shown : (w : Power.Box) → w.up.of_vmm ≡ true → Runs (Power.procfs_of w) (Power.identity vmm)
shown w up = record {
  name = codes "7 (a";
  fields = words;
  state = b'S';
  start = codes "x";
  listed = ap Power.stat_if up;
  last = refl;
  first = state_word;
  twentieth = start_word;
  number = refl;
  booted = refl;
  no_zombie = λ e. omega (arith, e);
  not_dead = λ e. omega (arith, e);
  shown = inr refl;
}

down : (b : Bool) → ◌≡◌ {A = Result Process.Error Bool} (ok (not b)) (ok true) → b ≡ false
down true e = cc
down false e = refl

abbrev box_observed : Observed Power.box_os vmm (Power.identity vmm)
box_observed = record {
  live = λ w. w.up.of_vmm;
  shows = shown;
  no_such_fd = λ s w e. refl;
  no_such = λ s w e. refl;
  waited = λ w e. down w.up.of_vmm e;
}

terminated : (terminate Power.box_os (Power.identity vmm) 3000 both_up).0 ≡ ok tt
unfolding is_current wait_for_exit wait_until wait_loop terminate wait_if kill_if
    send_signal_checked call attempt give always ◌>>=◌ matches_running_process matches_stat
    parse_state_and_start_time after_close words_from take_word
terminated = refl

terminate_not_live_example :
    (terminate Power.box_os (Power.identity vmm) 3000 both_up).1.up.of_vmm ≡ false
terminate_not_live_example =
    terminate_not_live Power.box_os vmm (Power.identity vmm) box_observed 3000 both_up terminated

child_terminated : (terminate_spawned Power.box_os vmm (Power.identity vmm) 3000 both_up).0 ≡ ok tt
unfolding is_current wait_for_child wait_until wait_loop terminate_spawned terminate_child_if
    kill_child_if send_signal_checked call attempt give always ◌>>=◌ matches_running_process
    matches_stat parse_state_and_start_time after_close words_from take_word
child_terminated = refl

terminate_spawned_not_live_example :
    (terminate_spawned Power.box_os vmm (Power.identity vmm) 3000 both_up).1.up.of_vmm ≡ false
terminate_spawned_not_live_example =
    terminate_spawned_not_live Power.box_os vmm (Power.identity vmm) box_observed 3000 both_up
      child_terminated
