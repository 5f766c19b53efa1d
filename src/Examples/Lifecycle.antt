-- ===== src/Examples/Lifecycle.antt =====
-- A host whose world is the list of the storage directories, and the commands that run on it.
use spawnr.Prelude.{
  ℕ, ◌+◌, ◌^◌, ◌<◌, length, is_ok, ◌≡◌, refl, Bool, true, false, ◌==◌, none, List, [], ◌∷◌, any,
  if◌then◌else◌, Result, ok, err, arith,
}
use spawnr.Prelude.Text.{Str, codes}
use spawnr.Protocol
use spawnr.Host.State.{MachineRecord, values}
use spawnr.Host.Machine
use spawnr.Host.Machine.{
  Backend, Locked, Status, running, stopped, HostCredentials, ◌>>=◌, give, on_world, read_machines,
}
use spawnr.Host.Machine.Create.{init, clone_machines}
use spawnr.Host.Machine.Commands.{remove}
use spawnr.Host.Machine.Record.{new_record, free_cid, used_cids}
use spawnr.Host.Machine.Addresses.{IsFree, new_record-IsFree, new_record_returns}
use spawnr.Host.Machine.Journal.{booked, journaled}
use spawnr.Host.Machine.Booked.{Booked, clone_machines-Booked, init-Booked, remove-Booked}

-- The storage directories, the next identifier, and whether the state file can be written.
record Disk : Type 0 where
  ids : List ℕ
  next : ℕ
  writable : Bool

abbrev has : List ℕ → ℕ → Bool
has ids j = any (λ i. i == j) ids

abbrev without : ℕ → List ℕ → List ℕ
without id [] = []
without id (i ∷ ids) = let rest = without id ids in if i == id then rest else i ∷ rest

abbrev no_session : Protocol.SessionConfig
no_session = record {
  git_user_name = none;
  git_user_email = none;
  git_signing_key = none;
  gh_token = none;
  ssh_known_hosts = none;
  ssh_agent = false;
  image_env = [];
}

abbrev empty_credentials : HostCredentials
empty_credentials = record { session = no_session; ssh_auth_sock = none }

abbrev fine : Disk → Result Machine.Error (Unit {0}) × Disk
fine d = (ok tt, d)

abbrev host : Backend
host = record {
  World = Disk;
  prepare_environment = λ r d. (ok ((codes "sha256:0", codes "0"), 0), d);
  commit_storage = λ r base d. (ok tt, record d { ids = r.id ∷ d.ids });
  remove_storage = λ r d. (ok tt, record d { ids = without r.id d.ids });
  acquire_block = fine;
  machine_status = λ r d. (ok stopped, d);
  collect = λ d. (empty_credentials, d);
  machine_config_env = λ r d. (ok [], d);
  expose_ssh_agent = λ c r. fine;
  vmm_start = λ r c. fine;
  vmm_stop = λ r. fine;
  wait_healthy = λ r t. fine;
  request = λ r m t d. (ok (Protocol.Response.ok []), d);
  interactive_exec = λ r m d. (ok 0, d);
  publish_environment = λ r s. fine;
  save = λ m d. (if d.writable then ok tt else err (Machine.Error.backend 28), d);
  new_uuid = λ d. (d.next, record d { next = d.next + 1 });
  now = λ d. (0, d);
}

abbrev empty : Locked (journaled host)
empty = record { machines = []; world = (record { ids = []; next = 5; writable = true }, []) }

-- The state file cannot be written.
abbrev full : Locked (journaled host)
full = record { machines = []; world = (record { ids = []; next = 5; writable = false }, []) }

false-ne-true : false ≡ true → ⊥
false-ne-true h = cc

empty-Booked : Booked host empty
unfolding booked
empty-Booked j o = absurd (false-ne-true o)

full-Booked : Booked host full
unfolding booked
full-Booked j o = absurd (false-ne-true o)

abbrev ascii : ℕ → List ℕ
ascii c = c ∷ []

clone_machines-Booked_example :
    Booked host
      (clone_machines ascii (journaled host) (codes "img") (codes "https://h/r.git") none 1 empty).1
clone_machines-Booked_example =
    clone_machines-Booked host ascii (codes "img") (codes "https://h/r.git") none 1 empty
      empty-Booked

init-Booked_example : Booked host (init (journaled host) (codes "box") (codes "img") full).1
init-Booked_example = init-Booked host (codes "box") (codes "img") full full-Booked

remove-Booked_example :
    Booked host
      (remove
        (journaled host)
        (codes "box")
        true
        (init (journaled host) (codes "box") (codes "img") empty).1).1
remove-Booked_example =
    remove-Booked host (codes "box") true
      (init (journaled host) (codes "box") (codes "img") empty).1
      (init-Booked host (codes "box") (codes "img") empty empty-Booked)

abbrev record_at : ℕ → Str → ℕ → MachineRecord
record_at id name cid = record {
  id = id;
  name = name;
  environment = record { reference = codes "img"; manifest_digest = none; base_cache_key = none };
  repository = none;
  repository_dir = none;
  workspace_id = id + 1;
  created_at = 0;
  vsock_cid = cid;
  mac_address = 2 ∷ 0 ∷ 0 ∷ 0 ∷ 0 ∷ 0 ∷ [];
}

-- The first address is taken.
abbrev occupied : Locked host
occupied = record {
  machines = (codes "old", record_at 3 (codes "old") 4096) ∷ [];
  world = record { ids = 3 ∷ []; next = 5; writable = true };
}

record_made :
    (new_record host (codes "box") (codes "img") none none occupied).0
    ≡ ok (record_at 5 (codes "box") 4097)
unfolding new_record free_cid ◌>>=◌ give on_world read_machines
record_made = refl

new_record-IsFree_example : IsFree (used_cids (values occupied.machines)) 4097
new_record-IsFree_example =
    new_record-IsFree host (codes "box") (codes "img") none none occupied
      (record_at 5 (codes "box") 4097) record_made

few_machines : length (values occupied.machines) < 2 ^ 31
few_machines = omega arith

new_record_returns_example :
    is_ok (new_record host (codes "box") (codes "img") none none occupied).0 ≡ true
new_record_returns_example =
    new_record_returns host (codes "box") (codes "img") none none occupied few_machines
