-- ===== src/Examples/Storage.antt =====
-- A host's directory of machines on which nothing breaks off, and one on which the copies do.
use spawnr.Prelude.{
  ◌==◌, Bool-cases, inl, inr, ==_iff, sym, zero, suc, ◌++◌, List, ℕ, ◌≡◌, ◌↔◌, refl, true, false,
  Option, none, some, [], ◌∷◌, ok, arith, if◌then◌else◌, ltb, ◌⊎◌, ◌≤◌, ◌<◌,
}
use spawnr.Prelude.Text.{Str, codes}
use spawnr.Host.State.{MachineRecord}
use spawnr.Host.State.Store.{StateStore, State, save, read, replace, write_temporary}
use spawnr.Host.State.Saved.{SaveEnds, save-SaveEnds}
use spawnr.Host.State.Reread.{read-save}
use spawnr.Host.Files.{
  PathBuf, Node, directory, file, Disk, Device, path_eq, set, under, is_directory, change, place,
  look,
}
use spawnr.Prelude.Actions.{◌>>=◌, give}
use spawnr.Host.Files.Calls.{or_undo, create_new, write_all, sync, rename}
use spawnr.Host.Files.Trees.{WellFormed}
use spawnr.Host.Files.Looks.{Ends}
use spawnr.Host.Storage.{
  Site, cloned, for_record, create, remove, clear_session, assert_domain_layout,
}
use spawnr.Host.Storage.Sparse.{
  Kernel, Seek, at, past_end, sparse_copy, copy_loop, from_data, hole_of, copy_extent, read_at,
  received, slice, write_all_at, write_at, wrote,
}
use spawnr.Host.Storage.Disks.{commit_machine_storage}
use spawnr.Host.Storage.Layout.{Laid, Owned}
use spawnr.Host.Storage.Creation.{create-existing, Refused}
use spawnr.Host.Storage.Accepted.{Readable, assert_domain_layout-Laid}
use spawnr.Host.Storage.Removal.{RemoveEnds, remove-RemoveEnds, clear_session-confined}
use spawnr.Host.Storage.Commit.{Undoable, CommitEnds, commit_machine_storage-CommitEnds}
use spawnr.Host.Storage.Contract.{Commits, stored, Injective, commit_machine_storage-Commits}
use spawnr.Host.Storage.Pieces.{Is}
use spawnr.Host.Storage.Copied.{Extents, sparse_copy-Is}
use spawnr.Host.Storage.Fuel.{Fueled, sparse_copy-Fueled}
use spawnr.Examples.Codec.{state_json, owner_json, marker_json}

abbrev machine : MachineRecord
machine = record {
  id = 7;
  name = codes "demo";
  environment = record {
    reference = codes "ubuntu";
    manifest_digest = none;
    base_cache_key = none;
  };
  repository = none;
  repository_dir = none;
  workspace_id = 8;
  created_at = 0;
  vsock_cid = 4096;
  mac_address = 2 ∷ 0 ∷ 0 ∷ 0 ∷ 0 ∷ 1 ∷ [];
}

abbrev device : Device
device = record { breaks = λ t op p. none; euid = 1000; directory_mode = 493 }

-- What is asked of a file of one byte.
abbrev kernel : Kernel
kernel = record {
  seek_data = λ o. if ltb o 1 then at 0 else past_end;
  seek_hole = λ p. past_end;
  reads = λ p. some 1;
  writes = λ p. some 1;
  copies = true;
}

abbrev zeros : ℕ → List ℕ
zeros zero = []
zeros (suc n) = let more = zeros n in 0 ∷ more

-- A file of four bytes with a hole in the middle: data at 0 and at 3.
abbrev sparse_file : ℕ → ℕ
sparse_file i = if i == 0 then 5 else if i == 3 then 7 else 0

-- What lseek(2) answers for it: inside the hole the hole begins at the offset itself.
abbrev sparse_kernel : Kernel
sparse_kernel = record {
  seek_data = λ o. if o == 0 then at 0 else if ltb o 4 then at 3 else past_end;
  seek_hole =
      λ p. if p == 0 then at 1 else if ltb p 3 then at p else if p == 3 then at 4 else past_end;
  reads = λ p. some 1;
  writes = λ p. some 1;
  copies = true;
}

-- The start of a superblock.
abbrev image : List ℕ
image = zeros 1080 ++ (0x53 ∷ 0xEF ∷ [])

abbrev site : Site
site = record {
  device = device;
  machines_dir = codes "machines" ∷ [];
  uuid_text = λ id. id ∷ [];
  ownership_json = owner_json;
  domain_json = marker_json;
  new_uuid = λ now. now;
  mkfs_found = true;
  mkfs_succeeds = λ now label. true;
  formatted = λ now label old. image;
  ficlone = λ now. cloned;
  kernel = λ now. kernel;
}

-- The directory of the machines, and a base image beside it.
abbrev two : PathBuf → Option Node
two [] = some (directory 448 1000)
two (x ∷ []) =
    if path_eq (x ∷ []) (codes "machines" ∷ [])
    then some (directory 448 1000)
    else if path_eq (x ∷ []) (codes "base.raw" ∷ [])
    then some (file 384 image)
    else none
two (x ∷ y ∷ p) = none

abbrev empty_host : Disk
empty_host = record { nodes = two; clock = 0 }

empty_host-WellFormed : WellFormed two
empty_host-WellFormed = record { above = above }
  where
    above : (x : Str) (p : PathBuf) → two p ≡ none → two (x ∷ p) ≡ none
    above x [] h = cc
    above x (y ∷ p) h = refl

readable : (p : PathBuf) → Readable device p
readable p = record { inspected = λ t. refl; read = λ t. refl }

undoable : Undoable site machine
undoable = record {
  removable = record { removable = λ t. refl };
  directory_readable = readable _;
  marker_readable = readable _;
}

injective : Injective site
unfolding Injective
injective i j h = cc

abbrev base : PathBuf
base = codes "base.raw" ∷ []

commit_machine_storage-CommitEnds_example :
    Ends (CommitEnds site machine two) (commit_machine_storage site machine base empty_host)
commit_machine_storage-CommitEnds_example =
    commit_machine_storage-CommitEnds site machine empty_host base empty_host-WellFormed undoable

commit_machine_storage-Commits_example :
    Ends
      (λ v n. Commits 7 (stored site two) v (stored site n))
      (commit_machine_storage site machine base empty_host)
commit_machine_storage-Commits_example =
    commit_machine_storage-Commits site injective machine empty_host base empty_host-WellFormed
      undoable

-- Something stands at the machine's directory already.
abbrev taken : Disk
taken = record {
  nodes = set ((7 ∷ []) ∷ codes "machines" ∷ []) (some (file 420 [])) two;
  clock = 0;
}

taken_there : taken.nodes (for_record site machine).root ≡ some (file 420 [])
unfolding set path_eq for_record
taken_there = refl

create-existing_example :
    Ends (Refused site machine taken.nodes) (create site (for_record site machine) machine taken)
create-existing_example = create-existing site machine taken (file 420 []) taken_there

abbrev created : Disk
created = (create site (for_record site machine) machine empty_host).1

assert_domain_layout-Laid_example :
    ((assert_domain_layout site (for_record site machine) machine created).0 ≡ ok tt)
    ↔ Laid site (for_record site machine) machine created.nodes
assert_domain_layout-Laid_example =
    assert_domain_layout-Laid site (for_record site machine) machine created readable

remove-RemoveEnds_example :
    Ends
      (RemoveEnds site machine created.nodes)
      (remove site (for_record site machine) machine created)
remove-RemoveEnds_example = remove-RemoveEnds site machine created

clear_session-confined_example :
    Ends
      (λ v n.
        (Owned site (for_record site machine) machine created.nodes ⊎ (n ≡ created.nodes))
        × ((q : PathBuf)
            → under (for_record site machine).session_dir q ≡ false
            → n q ≡ created.nodes q))
      (clear_session site (for_record site machine) machine created)
clear_session-confined_example = clear_session-confined site machine created

at_injective : {a b : ℕ} → ◌≡◌ {A = Seek} (at a) (at b) → a ≡ b
at_injective e = cc

-- Where the data is that is found.
sought :
    (o p : ℕ)
    → sparse_kernel.seek_data o ≡ at p
    → ((o ≡ 0) × (p ≡ 0)) ⊎ ((1 ≤ o) × (o ≤ 3) × (p ≡ 3))
sought o p e = elim (Bool-cases (o == 0)) [
  | inl first ↦ inl ((==_iff o 0).0 first, sym (at_injective (rw first at e)))
  | inr later ↦ elim (Bool-cases (ltb o 4)) [
    | inl inside ↦ inr (ground arith, ground arith, sym (at_injective (rw (later, inside) at e)))
    | inr outside ↦ absurd (end_not_at (rw (later, outside) at e))
  ]
]
  where
    end_not_at : past_end ≡ at p → ⊥
    end_not_at e = cc

hole_found : (p h : ℕ) → (p ≡ 0) ⊎ (p ≡ 3) → sparse_kernel.seek_hole p ≡ at h → p < h
hole_found p h (inl z) e = let g : at 1 ≡ at h = rw z at e in omega (arith, at_injective g, z)
hole_found p h (inr z) e = let g : at 4 ≡ at h = rw z at e in omega (arith, at_injective g, z)

no_data : (o i : ℕ) → sparse_kernel.seek_data o ≡ past_end → o ≤ i → sparse_file i ≡ 0
no_data o i e le = ground arith

skipped :
    (o p : ℕ)
    → ((o ≡ 0) × (p ≡ 0)) ⊎ ((1 ≤ o) × (o ≤ 3) × (p ≡ 3))
    → (o ≤ p) × (p < 4) × ((i : ℕ) → o ≤ i → i < p → sparse_file i ≡ 0)
skipped o p (inl (a, b)) = (omega arith, omega arith, λ i le lt. ground arith)
skipped o p (inr (a, b, c)) = (omega arith, omega arith, λ i le lt. ground arith)

at_data : (o p : ℕ) → ((o ≡ 0) × (p ≡ 0)) ⊎ ((1 ≤ o) × (o ≤ 3) × (p ≡ 3)) → (p ≡ 0) ⊎ (p ≡ 3)
at_data o p (inl (a, b)) = inl b
at_data o p (inr (a, b, c)) = inr c

-- What the kernel reports of the file with the hole.
extents : Extents sparse_kernel sparse_file 4
extents = record {
  data_at = λ o p e. skipped o p (sought o p e);
  data_end = λ o e i le. no_data o i e le;
  hole_after = λ o p h e g. hole_found p h (at_data o p (sought o p e)) g;
  ended = λ i le. ground arith;
}

copied : (sparse_copy sparse_kernel sparse_file 4 (λ i. 0)).0 ≡ ok tt
unfolding sparse_copy copy_loop from_data ◌>>=◌ give hole_of copy_extent read_at received slice
    write_all_at write_at wrote
copied = refl

sparse_copy-Is_example : Is sparse_file (sparse_copy sparse_kernel sparse_file 4 (λ i. 0)).1
sparse_copy-Is_example =
    sparse_copy-Is sparse_kernel sparse_file 4 extents (λ i. 0) (record { byte = λ i. refl }) copied

sparse_copy-Fueled_example : Fueled (sparse_copy sparse_kernel sparse_file 4)
sparse_copy-Fueled_example = sparse_copy-Fueled sparse_kernel sparse_file 4 extents

abbrev store : StateStore
store = record {
  device = device;
  root = codes "spawnr" ∷ [];
  json = state_json;
  process_id = codes "12";
  new_uuid = λ now. codes "f00";
  flock = λ now. true;
}

abbrev data_directory : Disk
data_directory = record {
  nodes = λ p. if path_eq p (codes "spawnr" ∷ []) then some (directory 448 1000) else none;
  clock = 0;
}

abbrev new_state : State
new_state = record { schema = 1; machines = (codes "demo", machine) ∷ [] }

data_directory_there : is_directory (data_directory.nodes store.root) ≡ true
unfolding path_eq
data_directory_there = refl

save-SaveEnds_example :
    Ends (SaveEnds store new_state data_directory.nodes) (save store new_state data_directory)
save-SaveEnds_example = save-SaveEnds store new_state data_directory data_directory_there

saved : (save store new_state data_directory).0 ≡ ok tt
unfolding save replace write_temporary or_undo ◌>>=◌ create_new change place path_eq write_all sync
    look rename set
saved = refl

read-save_example : (read store (save store new_state data_directory).1).0 ≡ ok new_state
read-save_example =
    read-save store new_state data_directory data_directory_there (λ now. refl) refl saved
