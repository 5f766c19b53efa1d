-- ===== src/Host/Process/Stop.antt =====
-- A PID file is removed only when it names a process that does not run.
use spawnr.Prelude.{
  ℕ, ◌≡◌, refl, sym, ap, ◌∙◌, Bool, true, false, not, ◌||◌, Option, none, some, Result, ok,
  if◌then◌else◌, ◌==◌, arith, >>=-eq-ok, ok-injective, err-ne-ok, Bool-cases, inl, inr,
}
use spawnr.Prelude.Text.{Str, str_eq, str_eq_iff}
use spawnr.Host.Process.Status.{Runs, matches_running_process-Runs}
use spawnr.Host.Process.{
  Host, ProcessIdentity, ManagedProcessStatus, Read, PidFile, found, not_found, denied, failed,
  missing, running, stale, matches_running_process, matches_stat, parse_state_and_start_time,
  same_executable, with_stat, read_pid_file, inspect_pid_file, inspect_recorded, status_of,
  remove_pid_file, Error, may_remove, identity_eq, remove_stale, remove_stale_pid_file,
}

false-ne-true : false ≡ true → ⊥
false-ne-true h = cc

matches_stat_sound :
    (h : Host) (p : ProcessIdentity) (stat : Str)
    → matches_stat h p stat ≡ ok true
    → (state : ℕ) × (parse_state_and_start_time h.parse_number stat
        ≡ ok (state, p.start_time_ticks))
      × (h.boot_id ≡ ok p.boot_id)
      × ((state == b'Z' || state == b'X') ≡ false)
      × (same_executable p (h.exe p.pid) ≡ ok true)
unfolding matches_stat
matches_stat_sound h p stat runs =
    let ((state, start), parsed, h1) =
      >>=-eq-ok (parse_state_and_start_time h.parse_number stat) _ runs in
    let (boot, booted, h2) = >>=-eq-ok h.boot_id _ h1 in
    elim (Bool-cases (not (str_eq p.boot_id boot) || not (p.start_time_ticks == start))) [
      | inl differs ↦ absurd (false-ne-true (ok-injective (rw differs at h2)))
      | inr same ↦ elim (Bool-cases (state == b'Z' || state == b'X')) [
        | inl dead ↦ absurd (false-ne-true (ok-injective (rw (same, dead) at h2)))
        | inr alive ↦ (
          state,
          ground (arith, parsed, same),
          ground (arith, booted, same, str_eq_iff p.boot_id boot),
          alive,
          rw (same, alive) at h2,
        )
      ]
    ]

with_stat_sound :
    (h : Host) (p : ProcessIdentity) (r : Read Str)
    → h.stat p.pid ≡ r
    → with_stat h p r ≡ ok true
    → (stat : Str) × (state : ℕ) × (h.stat p.pid ≡ found stat)
      × (parse_state_and_start_time h.parse_number stat ≡ ok (state, p.start_time_ticks))
      × (h.boot_id ≡ ok p.boot_id)
      × ((state == b'Z' || state == b'X') ≡ false)
      × (same_executable p (h.exe p.pid) ≡ ok true)
with_stat_sound h p (found stat) at runs =
    let (state, parsed, boot, alive, exe) = matches_stat_sound h p stat runs in
    (stat, state, at, parsed, boot, alive, exe)
with_stat_sound h p not_found at runs = absurd (false-ne-true (ok-injective runs))
with_stat_sound h p denied at runs = absurd (err-ne-ok runs)
with_stat_sound h p (failed e) at runs = absurd (err-ne-ok runs)

-- A PID file is reported as running for a process of this boot that started at the recorded time, is
-- neither a zombie nor dead, and runs the recorded executable if procfs shows it.
pub matches_running_process_sound :
    (h : Host) (p : ProcessIdentity)
    → matches_running_process h p ≡ ok true
    → (stat : Str) × (state : ℕ) × (h.stat p.pid ≡ found stat)
      × (parse_state_and_start_time h.parse_number stat ≡ ok (state, p.start_time_ticks))
      × (h.boot_id ≡ ok p.boot_id)
      × ((state == b'Z' || state == b'X') ≡ false)
      × (same_executable p (h.exe p.pid) ≡ ok true)
unfolding matches_running_process
matches_running_process_sound h p runs = with_stat_sound h p (h.stat p.pid) refl runs

not_missing :
    (file after : Read PidFile) (status : ManagedProcessStatus)
    → missing ≡ status
    → remove_stale file status ≡ ok (true, after)
    → ⊥
not_missing file after missing eq removed = ground (arith, removed)
not_missing file after (running p) eq removed = ground (arith, eq)
not_missing file after (stale p) eq removed = ground (arith, eq)

matched_lem :
    (h : Host) (file after : Read PidFile) (p : ProcessIdentity) (same : Bool)
    → read_pid_file file ≡ ok (some p)
    → matches_running_process h p ≡ ok same
    → remove_stale file (status_of p same) ≡ ok (true, after)
    → (q : ProcessIdentity) × (read_pid_file file ≡ ok (some q))
      × (matches_running_process h q ≡ ok false)
      × (remove_pid_file file q ≡ ok after)
matched_lem h file after p true read matched removed = absurd (err-ne-ok removed)
matched_lem h file after p false read matched removed =
    let (file', made, h1) = >>=-eq-ok (remove_pid_file file p) _ removed in
    (p, read, matched, rw made (ap ok (ap (λ x. x.1) (ok-injective h1))))

recorded_lem :
    (h : Host) (file after : Read PidFile) (recorded : Option ProcessIdentity)
    (status : ManagedProcessStatus)
    → read_pid_file file ≡ ok recorded
    → inspect_recorded h recorded ≡ ok status
    → remove_stale file status ≡ ok (true, after)
    → (p : ProcessIdentity) × (read_pid_file file ≡ ok (some p))
      × (matches_running_process h p ≡ ok false)
      × (remove_pid_file file p ≡ ok after)
recorded_lem h file after none status read inspected removed =
    absurd (not_missing file after status (ok-injective inspected) removed)
recorded_lem h file after (some p) status read inspected removed =
    let (same, matched, h1) = >>=-eq-ok (matches_running_process h p) _ inspected in
    matched_lem h file after p same read matched (rw (← ok-injective h1) at removed)

status_lem :
    (h : Host) (file : Read PidFile) (status : ManagedProcessStatus) {after : Read PidFile}
    → inspect_pid_file h file ≡ ok status
    → remove_stale file status ≡ ok (true, after)
    → (p : ProcessIdentity) × (read_pid_file file ≡ ok (some p))
      × (matches_running_process h p ≡ ok false)
      × (remove_pid_file file p ≡ ok after)
unfolding inspect_pid_file
status_lem h file status {after} inspected removed =
    let (recorded, read, h1) = >>=-eq-ok (read_pid_file file) _ inspected in
    recorded_lem h file after recorded status read h1 removed

never : (p q : ProcessIdentity) → may_remove p (some q) ≡ ok false → ⊥
never p q h = elim (Bool-cases (identity_eq q p)) [
  | inl same ↦ false-ne-true (sym (ok-injective (rw same at h)))
  | inr other ↦ err-ne-ok (rw other at h)
]

go_lem :
    (p : ProcessIdentity) (recorded : Option ProcessIdentity) (go : Bool) (file : Read PidFile)
    {after : Read PidFile}
    → some p ≡ recorded
    → may_remove p recorded ≡ ok go
    → ◌≡◌ {A = Result Error (Read PidFile)} (if go then ok not_found else ok file) (ok after)
    → after ≡ not_found
go_lem p recorded true file same may h = sym (ok-injective h)
go_lem p none false file same may h = ground (arith, same)
go_lem p (some q) false file same may h = absurd (never p q may)

remove_lem :
    (file : Read PidFile) (p : ProcessIdentity) (after : Read PidFile)
    → read_pid_file file ≡ ok (some p)
    → remove_pid_file file p ≡ ok after
    → after ≡ not_found
unfolding remove_pid_file
remove_lem file p after read removed =
    let (recorded, read', h1) = >>=-eq-ok (read_pid_file file) _ removed in
    let (go, may, h2) = >>=-eq-ok (may_remove p recorded) _ h1 in
    go_lem p recorded go file (ok-injective (sym read ∙ read')) may h2

true-ne-false : ◌≡◌ {A = Result Error Bool} (ok true) (ok false) → ⊥
true-ne-false h = cc

-- `remove_stale_pid_file` reports that it removed a file only if the file recorded a process that does
-- not run as procfs tells it, and the file is gone then.
pub remove_stale_pid_file_stale :
    (h : Host) (file after : Read PidFile)
    → remove_stale_pid_file h file ≡ ok (true, after)
    → (p : ProcessIdentity) × (read_pid_file file ≡ ok (some p))
      × ¬ (Runs h p)
      × (after ≡ not_found)
unfolding remove_stale_pid_file
remove_stale_pid_file_stale h file after removed =
    let (status, inspected, h1) = >>=-eq-ok (inspect_pid_file h file) _ removed in
    let (p, read, dead, h2) = status_lem h file status inspected h1 in
    (
      p,
      read,
      λ r. true-ne-false (sym (matches_running_process-Runs h p r) ∙ dead),
      remove_lem file p after read h2,
    )
