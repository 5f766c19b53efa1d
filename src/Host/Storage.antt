-- ===== src/Host/Storage.antt =====
-- crates/spawnr/src/storage.rs: the tree of a machine, its markers and its two disks. The host's
-- directory of machines, the encoding of the markers and the identifiers' text are given.
pub mod Sparse
pub mod Pieces
pub mod Copied
pub mod Fuel
pub mod Disks
pub mod Region
pub mod Layout
pub mod Checks
pub mod Creation
pub mod Accepted
pub mod Removal
pub mod Images
pub mod Persistent
pub mod Formatted
pub mod Made
pub mod Commit
pub mod Contract
use spawnr.Prelude.{
  ℕ, ◌≡◌, Bool, true, false, Option, none, some, List, [], ◌∷◌, ◌++◌, ◌&&◌, ◌==◌, ◌%◌, not, Result,
  ok, err, ensure, context,
}
use spawnr.Prelude.Text.{Str, str_eq, codes}
use spawnr.Prelude.Actions.{Action, ◌>>=◌, ◌>>◌, give, attempt}
use spawnr.Host.State.{MachineRecord}
use spawnr.Host.Storage.Sparse.{Kernel}
use spawnr.Host.Files.{
  PathBuf, join, parent, Node, directory, file, link, Error, no_parent, not_a_directory,
  is_insecure, not_ours, bad_marker, other_owner, other_domain, Disk, Device,
}
use spawnr.Host.Files.Calls.{
  Io, symlink_metadata, create_dir, set_permissions, create_private_dir, remove_dir_all, create_new,
  write_all, sync, read_regular, or_undo,
}

abbrev pub spawnr_owner : Str
spawnr_owner = codes "spawnr"

abbrev pub owner_file : Str
owner_file = codes "owner.json"

abbrev pub domain_file : Str
domain_file = codes "domain.json"

pub data StorageDomain : Type 0 where
  environment : StorageDomain
  workspace : StorageDomain
  session : StorageDomain

pub record DomainMarker : Type 0 where
  pub owner : Str
  pub machine_id : ℕ
  pub workspace_id : ℕ
  pub domain : StorageDomain

pub record OwnershipMarker : Type 0 where
  pub owner : Str
  pub machine_id : ℕ
  pub machine_name : Str

-- serde_json for one type: what is written, with a line feed after it, is read back.
pub record Json (A : Type 0) : Type 0 where
  pub to_vec_pretty : A → List ℕ
  pub from_reader : List ℕ → Option A
  pub from_reader-to_vec_pretty : (a : A) → from_reader (to_vec_pretty a ++ (10 ∷ [])) ≡ some a

-- What the FICLONE request answers.
pub data Clone : Type 0 where
  cloned : Clone
  -- EOPNOTSUPP, EXDEV, EINVAL or ENOTTY
  not_supported : Clone
  clone_failed : Clone

-- What storage.rs relies on of its surroundings.
pub record Site : Type 0 where
  pub device : Device
  pub machines_dir : PathBuf
  -- `Uuid::to_string`
  pub uuid_text : ℕ → Str
  pub ownership_json : Json OwnershipMarker
  pub domain_json : Json DomainMarker
  -- `Uuid::new_v4` at some time.
  pub new_uuid : ℕ → ℕ
  -- `Storage::discover`: whether there is a mkfs.ext4 that can be run.
  pub mkfs_found : Bool
  -- Whether mkfs.ext4 reports success, and what it makes of the file's content.
  pub mkfs_succeeds : ℕ → Str → Bool
  pub formatted : ℕ → Str → List ℕ → List ℕ
  pub ficlone : ℕ → Clone
  pub kernel : ℕ → Kernel

pub record MachinePaths : Type 0 where
  pub root : PathBuf
  pub owner_marker : PathBuf
  pub environment_dir : PathBuf
  pub environment_disk : PathBuf
  pub workspace_dir : PathBuf
  pub workspace_disk : PathBuf
  pub session_dir : PathBuf
  pub vmm_pid_file : PathBuf
  pub network_pid_file : PathBuf
  pub api_socket : PathBuf
  pub vsock_socket : PathBuf
  pub network_socket : PathBuf
  pub vmm_log : PathBuf
  pub serial_log : PathBuf

domain_code : StorageDomain → ℕ
domain_code environment = 0
domain_code workspace = 1
domain_code session = 2

unfoldable pub domain_eq : DomainMarker → DomainMarker → Bool
unfolding domain_code
domain_eq a b =
    str_eq a.owner b.owner
    && (a.machine_id == b.machine_id)
    && (a.workspace_id == b.workspace_id)
    && (domain_code a.domain == domain_code b.domain)

abbrev pub ownership_of : MachineRecord → OwnershipMarker
ownership_of r = record { owner = spawnr_owner; machine_id = r.id; machine_name = r.name }

abbrev pub domain_of : MachineRecord → StorageDomain → DomainMarker
domain_of r domain = record {
  owner = spawnr_owner;
  machine_id = r.id;
  workspace_id = r.workspace_id;
  domain = domain;
}

private_as : Bool → Bool → Result Error (Unit {0})
private_as false ours = err is_insecure
private_as true false = err not_ours
private_as true true = ok tt

-- A real directory, that only the user can enter.
unfoldable pub private_directory : ℕ → Node → Result Error (Unit {0})
unfolding private_as
private_directory euid (directory mode uid) = private_as (mode % 64 == 0) (uid == euid)
private_directory euid (file mode content) = err not_a_directory
private_directory euid (link t) = err not_a_directory

unfoldable pub real_directory : Node → Result Error (Unit {0})
real_directory (directory mode uid) = ok tt
real_directory (file mode content) = err not_a_directory
real_directory (link t) = err not_a_directory

module _ (s : Site) where
  unfoldable pub for_record : MachineRecord → MachinePaths
  for_record r =
      let root = join s.machines_dir (s.uuid_text r.id) in
      let environment_dir = join root (codes "environment") in
      let workspace_dir = join root (codes "workspace") in
      let session_dir = join root (codes "session") in
      record {
        root = root;
        owner_marker = join root owner_file;
        environment_dir = environment_dir;
        environment_disk = join environment_dir (codes "environment.raw");
        workspace_dir = workspace_dir;
        workspace_disk = join workspace_dir (codes "workspace.raw");
        session_dir = session_dir;
        vmm_pid_file = join session_dir (codes "cloud-hypervisor.pid.json");
        network_pid_file = join session_dir (codes "passt.pid.json");
        api_socket = join session_dir (codes "api.sock");
        vsock_socket = join session_dir (codes "vsock.sock");
        network_socket = join session_dir (codes "net.sock");
        vmm_log = join session_dir (codes "cloud-hypervisor.log");
        serial_log = join session_dir (codes "serial.log");
      }

  unfoldable pub assert_private_directory : PathBuf → Io (Unit {0})
  assert_private_directory p =
      symlink_metadata s.device p >>= λ metadata. give (private_directory s.device.euid metadata)

  unfoldable pub sync_parent : PathBuf → Io (Unit {0})
  sync_parent p = give (context (parent p) no_parent) >>= λ above. sync s.device above

  -- The encoding of a marker does not fail.
  unfoldable pub write_json_new : {A : Type 0} → Json A → PathBuf → A → Io (Unit {0})
  write_json_new json p value =
      create_new s.device p
      >> write_all s.device p (json.to_vec_pretty value)
      >> write_all s.device p (10 ∷ [])
      >> sync s.device p
      >> sync_parent p

  unfoldable pub read_json_regular : {A : Type 0} → Json A → PathBuf → Io A
  read_json_regular json p = read_regular s.device p >>= λ (mode, content).
      give (ensure (mode % 64 == 0) is_insecure)
      >> give (context (json.from_reader content) bad_marker)

  unfoldable pub write_marker : MachinePaths → MachineRecord → Io (Unit {0})
  write_marker p r = write_json_new s.ownership_json p.owner_marker (ownership_of r)

  unfoldable pub write_domain_marker : MachineRecord → StorageDomain → PathBuf → Io (Unit {0})
  write_domain_marker r domain dir =
      write_json_new s.domain_json (join dir domain_file) (domain_of r domain)

  unfoldable pub write_domain_markers : MachinePaths → MachineRecord → Io (Unit {0})
  write_domain_markers p r =
      write_domain_marker r environment p.environment_dir
      >> write_domain_marker r workspace p.workspace_dir
      >> write_domain_marker r session p.session_dir

  -- The closure in `create`.
  unfoldable pub lay_out : MachinePaths → MachineRecord → PathBuf → Io (Unit {0})
  lay_out p r above =
      set_permissions s.device p.root 448
      >> create_private_dir s.device p.environment_dir
      >> create_private_dir s.device p.workspace_dir
      >> create_private_dir s.device p.session_dir
      >> write_marker p r
      >> write_domain_markers p r
      >> sync s.device p.root
      >> sync s.device above

  unfoldable pub create : MachinePaths → MachineRecord → Io (Unit {0})
  create p r = give (context (parent p.root) no_parent) >>= λ above.
      assert_private_directory above
      >> create_dir s.device p.root
      >> or_undo (lay_out p r above) (remove_dir_all s.device p.root)

  -- The test of the ownership marker.
  unfoldable pub marker_matches : MachineRecord → OwnershipMarker → Bool
  marker_matches r m =
      str_eq m.owner spawnr_owner && (m.machine_id == r.id) && str_eq m.machine_name r.name

  unfoldable pub assert_owned : MachinePaths → MachineRecord → Io (Unit {0})
  assert_owned p r =
      assert_private_directory p.root
      >> (read_json_regular s.ownership_json p.owner_marker >>= λ marker.
          give (ensure (marker_matches r marker) other_owner))

  -- One turn of the loop of `assert_domain_layout`.
  unfoldable pub assert_domain : MachineRecord → PathBuf → StorageDomain → Io (Unit {0})
  assert_domain r dir domain =
      assert_private_directory dir
      >> (read_json_regular s.domain_json (join dir domain_file) >>= λ marker.
          give (ensure (domain_eq marker (domain_of r domain)) other_domain))

  unfoldable pub assert_domain_layout : MachinePaths → MachineRecord → Io (Unit {0})
  assert_domain_layout p r =
      assert_owned p r
      >> assert_domain r p.environment_dir environment
      >> assert_domain r p.workspace_dir workspace
      >> assert_domain r p.session_dir session

  -- The session directory goes, unless its metadata cannot be read.
  unfoldable pub discard_session : MachinePaths → Result Error Node → Io (Unit {0})
  discard_session p (err e) = give (ok tt)
  discard_session p (ok metadata) =
      give (real_directory metadata) >> remove_dir_all s.device p.session_dir

  unfoldable pub clear_session : MachinePaths → MachineRecord → Io (Unit {0})
  clear_session p r =
      assert_owned p r
      >> ((attempt (symlink_metadata s.device p.session_dir) >>= λ metadata.
            discard_session p metadata)
          >> create_private_dir s.device p.session_dir
          >> write_domain_marker r session p.session_dir
          >> sync s.device p.root)

  unfoldable pub remove : MachinePaths → MachineRecord → Io (Unit {0})
  remove p r =
      assert_owned p r
      >> (give (context (parent p.root) no_parent) >>= λ above.
          remove_dir_all s.device p.root >> sync s.device above)
