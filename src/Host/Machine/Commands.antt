-- ===== src/Host/Machine/Commands.antt =====
-- `open`, `publish`, `list` and `remove` of machine.rs.
use spawnr.Prelude.{
  ℕ, Bool, true, false, Option, none, some, List, [], ◌∷◌, ◌++◌, ◌==◌, leb, not, ◌&&◌, ◌||◌, Result,
  ok, err, if◌then◌else◌, all,
}
use spawnr.Prelude.Text.{Str, codes, len, bytes, is_empty, is_ascii_alphanumeric}
use spawnr.Protocol.{Request, Response}
use spawnr.Host.Names.{validate_environment_reference}
use spawnr.Host.State.{MachineRecord, values}
use spawnr.Host.Machine.{
  Backend, Error, Status, also, uncommitted_changes, unverified, unexpected_response, shell_exited,
  lookup, M, ◌>>=◌, ◌>>◌, give, attempt, on_world, read_machines, remove_machine, save, lift,
}
use spawnr.Host.Machine.Power.{
  is_running, is_stopped, configure_session, start_record, start_unless, stop_record,
}

abbrev pub is_terminal_byte : ℕ → Bool
is_terminal_byte c = is_ascii_alphanumeric c || c == 45 || c == 95 || c == 46

abbrev pub default_terminal_type : Str
default_terminal_type = codes "xterm-256color"

unfoldable pub terminal_type : Option Str → Str
terminal_type none = default_terminal_type
terminal_type (some v) =
    if not (is_empty v) && leb (len v) 64 && all is_terminal_byte (bytes v)
    then v
    else default_terminal_type

abbrev pub directory_of : Option Str → Str
directory_of none = codes "/workspace"
directory_of (some directory) = codes "/workspace/" ++ directory

unfoldable pub open_shell_request : MachineRecord → ℕ → ℕ → Option Str → Request
open_shell_request r rows cols host_term =
    Request.exec (codes "/bin/bash" ∷ codes "-i" ∷ []) (some (directory_of r.repository_dir))
      ((codes "HISTFILE", codes "/run/spawnr/bash-history")
        ∷ (codes "TERM", terminal_type host_term)
        ∷ [])
      true rows cols

unfoldable pub configure_or_start : (b : Backend) → MachineRecord → Bool → M b (Unit {0})
configure_or_start b r true = configure_session b r
configure_or_start b r false = start_record b r

abbrev pub exit_result : ℕ → Result Error (Unit {0})
exit_result code = if code == 0 then ok tt else err (shell_exited code)

-- `rows`, `cols` and `host_term` describe the terminal of the caller.
unfoldable pub open_machine : (b : Backend) → Str → ℕ → ℕ → Option Str → M b (Unit {0})
open_machine b name rows cols host_term = do
  machines ← read_machines
  r ← give (lookup machines name)
  status ← on_world (b.machine_status r)
  configure_or_start b r (is_running status)
  code ← on_world (b.interactive_exec r (open_shell_request r rows cols host_term))
  give (exit_result code)

unfoldable pub stop_unless : (b : Backend) → MachineRecord → Bool → M b (Unit {0})
stop_unless b r true = give (ok tt)
stop_unless b r false = stop_record b r

-- The four cases of `match (result, restart)`.
abbrev pub publish_result :
    Result Error (Unit {0}) → Result Error (Unit {0}) → Result Error (Unit {0})
publish_result (ok _) restart = restart
publish_result (err e) (ok _) = err e
publish_result (err e) (err e') = err (also e e')

unfoldable pub publish : (b : Backend) → Str → Str → M b (Unit {0})
publish b name reference = do
  give (lift (validate_environment_reference reference))
  machines ← read_machines
  r ← give (lookup machines name)
  status ← on_world (b.machine_status r)
  stop_unless b r (is_stopped status)
  result ← attempt (on_world (b.publish_environment r reference))
  restart ← attempt (start_unless b r (not (is_running status)))
  give (publish_result result restart)

pub record ListRow : Type 0 where
  pub name : Str
  pub environment : Str
  pub repository : Option Str
  pub status : Status

unfoldable pub list_rows : (b : Backend) → List MachineRecord → M b (List ListRow)
list_rows b [] = give (ok [])
list_rows b (r ∷ rs) = do
  status ← on_world (b.machine_status r)
  rows ← list_rows b rs
  give (
      ok (
        record {
          name = r.name;
          environment = r.environment.reference;
          repository = r.repository;
          status = status;
        }
        ∷ rows))

unfoldable pub list : (b : Backend) → M b (List ListRow)
list b = read_machines >>= λ machines. list_rows b (values machines)

-- What the guest says of the workspace.
abbrev pub workspace_result : Response → Result Error (Unit {0})
workspace_result (Response.workspace_status false porcelain) = err uncommitted_changes
workspace_result (Response.workspace_status true porcelain) = ok tt
workspace_result (Response.error message) = err unverified
workspace_result _ = err unexpected_response

abbrev pub or_empty : Option Str → Str
or_empty none = []
or_empty (some v) = v

abbrev pub workspace_request : MachineRecord → Request
workspace_request r = Request.workspace_status (codes "/workspace/" ++ or_empty r.repository_dir)

-- Before a machine with a repository is destroyed: its workspace is clean. A machine that was not
-- running is started for the question, and stopped whatever the answer.
unfoldable pub verify_workspace : (b : Backend) → MachineRecord → Bool → M b (Unit {0})
verify_workspace b r was_running = do
  start_unless b r was_running
  answer ← attempt (on_world (b.request r (workspace_request r) 30))
  attempt (stop_unless b r was_running) >>= λ _.
      give answer >>= λ response. give (workspace_result response)

abbrev pub must_verify : MachineRecord → Bool → Bool
must_verify r force = elim r.repository [ none ↦ false | some _ ↦ not force ]

unfoldable pub verify_if : (b : Backend) → MachineRecord → Bool → Bool → M b (Unit {0})
verify_if b r was_running true = verify_workspace b r was_running
verify_if b r was_running false = give (ok tt)

unfoldable pub remove : (b : Backend) → Str → Bool → M b (Unit {0})
remove b name force = do
  machines ← read_machines
  r ← give (lookup machines name)
  status ← on_world (b.machine_status r)
  verify_if b r (is_running status) (must_verify r force)
  status' ← on_world (b.machine_status r)
  stop_unless b r (not (is_running status'))
  on_world (b.remove_storage r)
  remove_machine name
  save b
