-- ===== src/Host/Machine.antt =====
-- crates/spawnr/src/machine.rs: the lifecycle of machines. `Backend` is the interface to the
-- storage, the hypervisor, the guest and the state file: each operation may fail, and changes a
-- world that only the backend knows. A command runs on the machines read from the state file and
-- the world. Printing is left out.
pub mod Record
pub mod Power
pub mod Create
pub mod Commands
pub mod Quiet
pub mod Triples
pub mod Tracked
pub mod Rollback
pub mod Steps
pub mod Cloning
pub mod Lifecycle
pub mod Journal
pub mod Booked
pub mod Addresses
use spawnr.Prelude.{
  ℕ, ◌+◌, ◌%◌, ◌^◌, Bool, true, false, Option, none, some, List, [], ◌∷◌, ◌++◌, if◌then◌else◌, ltb,
  Result, ok, err,
}
use spawnr.Prelude.Text.{Str, codes}
use spawnr.Protocol.{Request, Response, SessionConfig}
use spawnr.Host.Names
use spawnr.Host.State
use spawnr.Host.State.{MachineRecord, Machines, get}

pub data Status : Type 0 where
  running stopped degraded : Status

pub data Error : Type 0 where
  -- A failure that an operation of the backend reports, by a number.
  backend : ℕ → Error
  invalid : Names.Error → Error
  already_exists no_machine uncommitted_changes unverified unexpected_response : Error
  guest_failed : Str → Error
  shell_exited : ℕ → Error
  could_not_remove : List Str → Error
  -- `context` with a second failure: rollback, cleanup or restart.
  also : Error → Error → Error
  -- The model's own: the search for a free vsock address ran out of rounds.
  out_of_fuel : Error

-- The path of the SSH agent's socket is left as a text.
pub record HostCredentials : Type 0 where
  pub session : SessionConfig
  pub ssh_auth_sock : Option Str

pub record Backend : Type 1 where
  pub World : Type 0
  -- `oci::prepare_environment` with `oci::prepared_metadata`: the source's digest and the key of the
  -- cache, and the base image.
  pub prepare_environment : MachineRecord → World → Result Error ((Str × Str) × ℕ) × World
  pub commit_storage : MachineRecord → ℕ → World → Result Error (Unit {0}) × World
  pub remove_storage : MachineRecord → World → Result Error (Unit {0}) × World
  -- `TerminationSignalBlock::acquire`
  pub acquire_block : World → Result Error (Unit {0}) × World
  pub machine_status : MachineRecord → World → Result Error Status × World
  -- `HostCredentials::collect`
  pub collect : World → HostCredentials × World
  -- `oci::machine_config_env`
  pub machine_config_env : MachineRecord → World → Result Error (List Str) × World
  -- `expose_ssh_agent` on the machine's socket, with `persist` of the link that it made.
  pub expose_ssh_agent : HostCredentials → MachineRecord → World → Result Error (Unit {0}) × World
  pub vmm_start : MachineRecord → HostCredentials → World → Result Error (Unit {0}) × World
  pub vmm_stop : MachineRecord → World → Result Error (Unit {0}) × World
  -- The timeouts are in seconds.
  pub wait_healthy : MachineRecord → ℕ → World → Result Error (Unit {0}) × World
  pub request : MachineRecord → Request → ℕ → World → Result Error Response × World
  pub interactive_exec : MachineRecord → Request → World → Result Error ℕ × World
  pub publish_environment : MachineRecord → Str → World → Result Error (Unit {0}) × World
  -- `LockedState::save`
  pub save : Machines → World → Result Error (Unit {0}) × World
  -- `Uuid::new_v4`, `OffsetDateTime::now_utc`
  pub new_uuid : World → ℕ × World
  pub now : World → ℕ × World

-- `expect_ok`
unfoldable pub expect_ok : Response → Result Error (Unit {0})
expect_ok (Response.ok message) = ok tt
expect_ok (Response.error message) = err (guest_failed message)
expect_ok _ = err unexpected_response

-- `lookup`
unfoldable pub lookup : Machines → Str → Result Error MachineRecord
lookup machines name = elim (get name machines) [ none ↦ err no_machine | some r ↦ ok r ]

-- `with_rollback`
abbrev pub with_rollback : Error → Result Error (Unit {0}) → Error
with_rollback primary (ok _) = primary
with_rollback primary (err rollback) = also primary rollback

-- The locked state while a command runs.
pub record Locked (b : Backend) : Type 0 where
  pub machines : Machines
  pub world : b.World

-- A computation: its result, and the state that it leaves in any case.
abbrev pub M : Backend → Type 0 → Type 0
M b A = Locked b → Result Error A × Locked b

-- How a computation goes on whose first part gave `r` and left `t`.
abbrev pub rest :
    {b : Backend} {A B : Type 0}
    → Result Error A
    → Locked b
    → (A → M b B)
    → Result Error B × Locked b
rest (ok a) t f = f a t
rest (err e) t f = (err e, t)

infixl 5 ◌>>=◌ ◌>>◌
unfoldable pub ◌>>=◌ : {b : Backend} {A B : Type 0} → M b A → (A → M b B) → M b B
◌>>=◌ m f s = rest (m s).0 (m s).1 f

abbrev pub ◌>>◌ : {b : Backend} {B : Type 0} → M b (Unit {0}) → M b B → M b B
m >> k = m >>= λ _. k

unfoldable pub give : {b : Backend} {A : Type 0} → Result Error A → M b A
give r s = (r, s)

-- `match m { Ok(..) => .., Err(..) => .. }`: the result as a value.
unfoldable pub attempt : {b : Backend} {A : Type 0} → M b A → M b (Result Error A)
attempt m s = let (r, t) = m s in (ok r, t)

-- An operation of the backend.
unfoldable pub on_world : {b : Backend} {A : Type 0} → (b.World → Result Error A × b.World) → M b A
on_world op s = let (r, w) = op s.world in (r, record s { world = w })

unfoldable pub read_machines : {b : Backend} → M b Machines
read_machines s = (ok s.machines, s)

unfoldable pub insert_machine : {b : Backend} → Str → MachineRecord → M b (Unit {0})
insert_machine name r s = (ok tt, record s { machines = State.insert name r s.machines })

unfoldable pub remove_machine : {b : Backend} → Str → M b (Unit {0})
remove_machine name s = (ok tt, record s { machines = State.remove name s.machines })

-- `prepare_storage`: the record gets its digest and its cache key.
abbrev pub with_metadata : MachineRecord → (Str × Str) × ℕ → MachineRecord × ℕ
with_metadata r ((digest, cache_key), base) = (
  record r {
    environment = record {
      reference = r.environment.reference;
      manifest_digest = some digest;
      base_cache_key = some cache_key;
    };
  },
  base,
)

unfoldable pub prepare_storage : (b : Backend) → MachineRecord → M b (MachineRecord × ℕ)
prepare_storage b r =
    on_world (b.prepare_environment r) >>= λ found. give (ok (with_metadata r found))

-- `locked.save()`
unfoldable pub save : (b : Backend) → M b (Unit {0})
save b s = let (r, w) = b.save s.machines s.world in (r, record s { world = w })

-- `validate(..)?`
abbrev pub lift : {A : Type 0} → Result Names.Error A → Result Error A
lift (ok a) = ok a
lift (err e) = err (invalid e)
