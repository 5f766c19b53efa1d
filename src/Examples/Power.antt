-- ===== src/Examples/Power.antt =====
-- A machine with one VMM and one network helper, which stop at the first signal.
mod Runs
use spawnr.Prelude.{
  ℕ, ◌+◌, ◌*◌, ◌≡◌, Bool, true, false, ◌==◌, ◌&&◌, ◌||◌, not, Option, none, some, ◌++◌, Result, ok,
  if◌then◌else◌,
}
use spawnr.Prelude.Text.{Str, codes, str_eq}
use spawnr.Host.Process.{
  Host, ProcessIdentity, Read, PidFile, found, not_found, denied, identity_eq,
}
use spawnr.Host.Process.Os.{Os, Helper, vmm, network, Signal}
use spawnr.Host.Vmm.{Machinery}

pub record Flags : Type 0 where
  pub of_vmm : Bool
  pub of_network : Bool

abbrev pub at : Flags → Helper → Bool
at f vmm = f.of_vmm
at f network = f.of_network

abbrev pub put : Helper → Bool → Flags → Flags
put vmm b f = record { of_vmm = b; of_network = f.of_network }
put network b f = record { of_vmm = f.of_vmm; of_network = b }

pub record Box : Type 0 where
  pub clock : ℕ
  pub up : Flags
  pub file : Flags
  pub spawned : Flags

abbrev pub pid_of : Helper → ℕ
pid_of vmm = 7
pid_of network = 8

abbrev pub identity : Helper → ProcessIdentity
identity h = record {
  pid = pid_of h;
  boot_id = codes "b";
  start_time_ticks = 42;
  executable = codes "/bin/x";
  executable_device = 1;
  executable_inode = 2;
}

abbrev pub pid_up : Box → ℕ → Bool
pid_up w n = if n == 7 then at w.up vmm else n == 8 && at w.up network

abbrev pub stat_if : Bool → Read Str
stat_if true = found (codes "7 (a) S 1 2 3 4 5 6 7 8 9 10 11 12 13 14 15 16 17 18 x")
stat_if false = not_found

abbrev pub procfs_of : Box → Host
procfs_of w = record {
  stat = λ n. stat_if (pid_up w n);
  exe = λ n. denied;
  boot_id = ok (codes "b");
  parse_number = λ s. if str_eq s (codes "x") then some 42 else none;
}

abbrev pub file_if : Bool → Helper → Read PidFile
file_if true h =
    found (record { is_file = true; size = 90; mode = 6 * 64; content = ok (identity h) })
file_if false h = not_found

abbrev pub identity_if : Bool → Helper → Option ProcessIdentity
identity_if true h = some (identity h)
identity_if false h = none

abbrev pub with_up : Flags → Box → Box
with_up f w = record { clock = w.clock; up = f; file = w.file; spawned = w.spawned }

abbrev pub with_file : Flags → Box → Box
with_file f w = record { clock = w.clock; up = w.up; file = f; spawned = w.spawned }

abbrev pub after_sleep : ℕ → Box → Box
after_sleep t w = record { clock = w.clock + t; up = w.up; file = w.file; spawned = w.spawned }

abbrev pub signalled : ℕ → Box → Box
signalled n w =
    with_up
      (record {
        of_vmm = not (n == 7) && w.up.of_vmm;
        of_network = not (n == 8) && w.up.of_network;
      })
      w

abbrev pub started : Helper → Box → Box
started h w = record {
  clock = w.clock;
  up = put h true w.up;
  file = put h true w.file;
  spawned = put h true w.spawned;
}

abbrev pub box_os : Os
box_os = record {
  World = Box;
  procfs = λ w. (procfs_of w, w);
  now = λ w. (w.clock, w);
  sleep = after_sleep;
  pid_file = λ h w. (file_if (at w.file h) h, w);
  unlink = λ h w. (ok tt, with_file (put h false w.file) w);
  pidfd_open = λ n w. (ok (pid_up w n), w);
  pidfd_send = λ n s w. (ok (pid_up w n), signalled n w);
  kill = λ n s w. (ok (pid_up w n), signalled n w);
  try_wait = λ h w. (ok (not (at w.up h)), w);
}

abbrev pub box_machinery : Machinery box_os
box_machinery = record {
  assert_owned = λ w. (ok tt, w);
  assert_domain_layout = λ w. (ok tt, w);
  clear_session = λ w. (ok tt, with_file (record { of_vmm = false; of_network = false }) w);
  power_button = λ w. (tt, with_up (put vmm false w.up) w);
  shutdown = λ w. (tt, w);
  command = λ w. (ok tt, w);
  network_command = λ w. (ok tt, w);
  spawn_managed = λ h w. (ok (identity h), started h w);
  wait_for_socket = λ h w. (ok tt, w);
  expose_ssh_agent = λ w. (ok tt, w);
}
