-- ===== src/Host/Process.antt =====
-- crates/spawnr/src/process.rs: identities of processes and PID files. The host (procfs and one
-- directory of PID files) is a record of what its reads give; a file's JSON is its identity.
pub mod Status
pub mod Stop
pub mod Gone
pub mod Os
pub mod Signals
pub mod Waiting
use spawnr.Prelude.{
  ℕ, ◌*◌, ◌%◌, ◌/◌, Bool, true, false, not, ◌&&◌, ◌||◌, Option, none, some, List, [], ◌∷◌, leb, ltb,
  ◌==◌, if◌then◌else◌, get_elem?, Result, ok, err, ◌>>=◌, ◌>>◌, ensure, context,
}
use spawnr.Prelude.Text.{Str, str_eq, is_whitespace, is_empty, split_once}

pub data Error : Type 0 where
  io : ℕ → Error
  no_delimiter no_state no_start_time bad_start_time : Error
  invalid_pid_file pid_file_shared invalid_identity changed_identity still_running : Error

pub record ProcessIdentity : Type 0 where
  pub pid : ℕ
  pub boot_id : Str
  pub start_time_ticks : ℕ
  pub executable : Str
  pub executable_device : ℕ
  pub executable_inode : ℕ

pub data ManagedProcessStatus : Type 0 where
  missing : ManagedProcessStatus
  running : ProcessIdentity → ManagedProcessStatus
  stale : ProcessIdentity → ManagedProcessStatus

abbrev pub is_running : ManagedProcessStatus → Bool
is_running missing = false
is_running (running identity) = true
is_running (stale identity) = false

-- A read of procfs: `not_found` and `denied` are the two errors that the code tells apart.
pub data Read (A : Type 0) : Type 0 where
  found : A → Read A
  not_found denied : Read A
  failed : ℕ → Read A

-- The device and the inode of an executable.
abbrev pub FileId : Type 0
FileId = ℕ × ℕ

-- A PID file as it is opened: `is_file() && len() <= MAX_PID_FILE_BYTES` is told from the size of a
-- regular file, and `content` is what `serde_json` decodes.
pub record PidFile : Type 0 where
  pub is_file : Bool
  pub size : ℕ
  pub mode : ℕ
  pub content : Result Error ProcessIdentity

pub record Host : Type 0 where
  pub stat : ℕ → Read Str
  pub exe : ℕ → Read FileId
  pub boot_id : Result Error Str
  -- `str::parse::<u64>`
  pub parse_number : Str → Option ℕ

-- The text after the last `)`, for `stat.rfind(')')`.
unfoldable pub after_close : Str → Option Str
after_close [] = none
after_close (c ∷ s) =
    let rest = after_close s in
    elim rest [ some t ↦ some t | none ↦ if c == b')' then some s else none ]

-- `split_whitespace`, with the word that is being read.
abbrev push_word : Str → List Str → List Str
push_word [] words = words
push_word (c ∷ w) words = (c ∷ w) ∷ words

unfoldable pub take_word : Str → Str
take_word [] = []
take_word (c ∷ s) = let rest = take_word s in if is_whitespace c then [] else c ∷ rest

-- Whether the text before was a space.
unfoldable pub words_from : Bool → Str → List Str
words_from fresh [] = []
words_from fresh (c ∷ s) =
    let more = words_from false s in
    let next = words_from true s in
    if is_whitespace c then next else if fresh then (c ∷ take_word s) ∷ more else more

abbrev pub split_whitespace : Str → List Str
split_whitespace s = words_from true s

abbrev pub first_char : List Str → Option ℕ
first_char [] = none
first_char ([] ∷ ss) = none
first_char ((c ∷ s) ∷ ss) = some c

unfoldable pub parse_state_and_start_time : (Str → Option ℕ) → Str → Result Error (ℕ × ℕ)
parse_state_and_start_time parse_number stat = do
  fields ← context (after_close stat) no_delimiter
  state ← context (first_char (split_whitespace fields)) no_state
  value ← context (get_elem? (split_whitespace fields) 19) no_start_time
  start_time ← context (parse_number value) bad_start_time
  ok (state, start_time)

-- The last check of `matches_running_process`, on the executable.
abbrev pub same_executable : ProcessIdentity → Read FileId → Result Error Bool
same_executable p (found (device, inode)) =
    ok (p.executable_device == device && p.executable_inode == inode)
same_executable p not_found = ok false
same_executable p denied = ok true
same_executable p (failed e) = err (io e)

-- The `return`s are the branches of `cond`.
unfoldable pub matches_stat : Host → ProcessIdentity → Str → Result Error Bool
matches_stat h p stat = do
  (state, start_time) ← parse_state_and_start_time h.parse_number stat
  boot_id ← h.boot_id
  if not (str_eq p.boot_id boot_id) || not (p.start_time_ticks == start_time)
      then ok false
      else if state == b'Z' || state == b'X'
      then ok false
      else same_executable p (h.exe p.pid)

abbrev pub with_stat : Host → ProcessIdentity → Read Str → Result Error Bool
with_stat h p (found stat) = matches_stat h p stat
with_stat h p not_found = ok false
with_stat h p denied = err (io 13)
with_stat h p (failed e) = err (io e)

unfoldable pub matches_running_process : Host → ProcessIdentity → Result Error Bool
matches_running_process h p = with_stat h p (h.stat p.pid)

-- `read_pid_file` of a file that was opened.
unfoldable pub read_opened : PidFile → Result Error (Option ProcessIdentity)
read_opened f = do
  ensure (f.is_file && leb f.size (64 * 1024)) invalid_pid_file
  ensure (f.mode % 64 == 0) pid_file_shared
  identity ← f.content
  ensure (ltb 0 identity.pid) invalid_identity
  ok (some identity)

abbrev pub read_pid_file : Read PidFile → Result Error (Option ProcessIdentity)
read_pid_file (found f) = read_opened f
read_pid_file not_found = ok none
read_pid_file denied = err (io 13)
read_pid_file (failed e) = err (io e)

abbrev pub status_of : ProcessIdentity → Bool → ManagedProcessStatus
status_of p true = running p
status_of p false = stale p

abbrev pub inspect_recorded : Host → Option ProcessIdentity → Result Error ManagedProcessStatus
inspect_recorded h none = ok missing
inspect_recorded h (some p) = matches_running_process h p >>= λ same. ok (status_of p same)

unfoldable pub inspect_pid_file : Host → Read PidFile → Result Error ManagedProcessStatus
inspect_pid_file h file = read_pid_file file >>= inspect_recorded h

-- Whether `remove_pid_file` goes on to remove the file.
abbrev pub identity_eq : ProcessIdentity → ProcessIdentity → Bool
identity_eq p q =
    p.pid == q.pid
    && str_eq p.boot_id q.boot_id
    && p.start_time_ticks == q.start_time_ticks
    && str_eq p.executable q.executable
    && p.executable_device == q.executable_device
    && p.executable_inode == q.executable_inode

abbrev pub may_remove : ProcessIdentity → Option ProcessIdentity → Result Error Bool
may_remove expected none = ok false
may_remove expected (some p) = if identity_eq p expected then ok true else err changed_identity

-- The file afterwards, when the removal itself works.
unfoldable pub remove_pid_file : Read PidFile → ProcessIdentity → Result Error (Read PidFile)
remove_pid_file file expected = do
  recorded ← read_pid_file file
  go ← may_remove expected recorded
  if go then ok not_found else ok file

abbrev pub remove_stale : Read PidFile → ManagedProcessStatus → Result Error (Bool × Read PidFile)
remove_stale file missing = ok (false, file)
remove_stale file (running p) = err still_running
remove_stale file (stale p) = remove_pid_file file p >>= λ file'. ok (true, file')

unfoldable pub remove_stale_pid_file : Host → Read PidFile → Result Error (Bool × Read PidFile)
remove_stale_pid_file h file = inspect_pid_file h file >>= remove_stale file
