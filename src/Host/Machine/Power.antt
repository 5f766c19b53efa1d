-- ===== src/Host/Machine/Power.antt =====
-- `start`, `stop` and the routines of machine.rs that start and stop the machine of a record.
use spawnr.Prelude.{ℕ, Bool, true, false, Result, ok, err}
use spawnr.Prelude.Text.{Str}
use spawnr.Protocol.{Request}
use spawnr.Host.State.{MachineRecord}
use spawnr.Host.Machine
use spawnr.Host.Machine.{
  Backend, HostCredentials, Status, running, stopped, degraded, expect_ok, lookup, with_rollback,
  also, M, ◌>>=◌, ◌>>◌, give, attempt, on_world, read_machines,
}

abbrev pub is_running : Status → Bool
is_running running = true
is_running stopped = false
is_running degraded = false

abbrev pub is_stopped : Status → Bool
is_stopped stopped = true
is_stopped running = false
is_stopped degraded = false

unfoldable pub collect_credentials : (b : Backend) → MachineRecord → M b HostCredentials
collect_credentials b r = do
  credentials ← on_world (λ w. let (c, w') = b.collect w in (ok c, w'))
  environment ← on_world (b.machine_config_env r)
  give (
      ok
        (record credentials { session = record (credentials.session) { image_env = environment } }))

-- `guest.request_timeout(request, timeout).and_then(expect_ok)`
unfoldable pub request_ok : (b : Backend) → MachineRecord → Request → ℕ → M b (Unit {0})
request_ok b r message timeout = do
  response ← on_world (b.request r message timeout)
  give (expect_ok response)

unfoldable pub configure_session : (b : Backend) → MachineRecord → M b (Unit {0})
configure_session b r = do
  credentials ← collect_credentials b r
  on_world (b.expose_ssh_agent credentials r)
  request_ok b r (Request.configure_session credentials.session) 5

-- The failure of `m`, after the machine's VM was stopped again.
unfoldable pub or_stop :
    (b : Backend) → MachineRecord → Result Machine.Error (Unit {0}) → M b (Unit {0})
or_stop b r (ok _) = give (ok tt)
or_stop b r (err e) = do
  cleanup ← attempt (on_world (b.vmm_stop r))
  give (err (with_rollback e cleanup))

-- The two checks after the VM started; the second is made only if the first passed.
unfoldable pub start_record : (b : Backend) → MachineRecord → M b (Unit {0})
start_record b r = do
  credentials ← collect_credentials b r
  on_world (b.vmm_start r credentials)
  healthy ← attempt (on_world (b.wait_healthy r 30))
  or_stop b r healthy
  configured ← attempt (request_ok b r (Request.configure_session credentials.session) 5)
  or_stop b r configured

-- The failure of `vmm::stop`, with that of the guest's shutdown if it failed too.
abbrev pub stop_result :
    Result Machine.Error (Unit {0})
    → Result Machine.Error (Unit {0})
    → Result Machine.Error (Unit {0})
stop_result guest (ok _) = ok tt
stop_result guest (err e) = err (with_rollback e guest)

unfoldable pub stop_record : (b : Backend) → MachineRecord → M b (Unit {0})
stop_record b r = do
  guest ← attempt (request_ok b r Request.shutdown 3)
  vmm ← attempt (on_world (b.vmm_stop r))
  give (stop_result guest vmm)

unfoldable pub start_unless : (b : Backend) → MachineRecord → Bool → M b (Unit {0})
start_unless b r true = give (ok tt)
start_unless b r false = start_record b r

unfoldable pub start : (b : Backend) → Str → M b (Unit {0})
start b name = do
  machines ← read_machines
  r ← give (lookup machines name)
  status ← on_world (b.machine_status r)
  start_unless b r (is_running status)

-- Stopping runs for a machine that is stopped too.
unfoldable pub stop : (b : Backend) → Str → M b (Unit {0})
stop b name = do
  machines ← read_machines
  r ← give (lookup machines name)
  on_world (b.machine_status r) >>= λ _. stop_record b r
