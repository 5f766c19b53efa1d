-- ===== src/Host/State/Store.antt =====
-- crates/spawnr/src/state.rs: the state file and its lock. The encoding is an interface; the
-- identifiers in the name of the temporary file are given.
use spawnr.Prelude.{
  ℕ, ◌≡◌, Bool, Option, none, some, List, [], ◌∷◌, ◌++◌, ◌==◌, if◌then◌else◌, Result, ok, err,
  ensure,
}
use spawnr.Prelude.Text.{Str, codes}
use spawnr.Prelude.Actions.{◌>>=◌, ◌>>◌, give, attempt}
use spawnr.Host.State.{Machines, schema_version}
use spawnr.Host.Files.{
  PathBuf, join, Node, directory, file, link, nothing, a_file, a_directory, Error, not_found,
  failed, state_corrupt, state_schema, making, Nodes, Device, place, change,
}
use spawnr.Host.Files.Calls.{
  Io, unchanged, create_new, write_all, sync, rename, remove_file, read_to_end, or_undo,
  create_private_dir,
}

pub record State : Type 0 where
  pub schema : ℕ
  pub machines : Machines

-- `State::default`
abbrev pub default : State
default = record { schema = schema_version; machines = [] }

-- serde_json for the state: what is written, with a line feed after it, is read back.
pub record StateJson : Type 0 where
  pub to_vec_pretty : State → List ℕ
  pub from_slice : List ℕ → Option State
  pub from_slice-to_vec_pretty : (s : State) → from_slice (to_vec_pretty s ++ (10 ∷ [])) ≡ some s

pub record StateStore : Type 0 where
  pub device : Device
  -- `paths.root()`
  pub root : PathBuf
  pub json : StateJson
  pub process_id : Str
  -- `Uuid::new_v4` at some time.
  pub new_uuid : ℕ → Str
  -- Whether flock(2) succeeds.
  pub flock : ℕ → Bool

-- The lock file is opened, and made where it is missing.
opened : Option Node → PathBuf → Nodes → Result Error Nodes
opened none p n = place (file 384 []) p n
opened (some (directory mode uid)) p n = err failed
opened (some (file mode content)) p n = ok n
opened (some (link nothing)) p n = err failed
opened (some (link a_file)) p n = ok n
opened (some (link a_directory)) p n = err failed

-- A file that is missing holds the default state.
unfoldable pub contents_of : Result Error (List ℕ) → Result Error (Option (List ℕ))
contents_of (ok content) = ok (some content)
contents_of (err not_found) = ok none
contents_of (err e) = err e

abbrev pub of_schema : State → Result Error State
of_schema state = if state.schema == schema_version then ok state else err state_schema

abbrev pub supported : Option State → Result Error State
supported none = err state_corrupt
supported (some state) = of_schema state

-- A file that cannot be decoded is an error.
unfoldable pub decoded : StateJson → Option (List ℕ) → Result Error State
decoded json none = ok default
decoded json (some content) = supported (json.from_slice content)

-- The directories are made in this order.
unfoldable pub create_private_dirs : Device → List PathBuf → Io (Unit {0})
create_private_dirs d [] = give (ok tt)
create_private_dirs d (p ∷ ps) = create_private_dir d p >> create_private_dirs d ps

-- `Paths::ensure_layout`
unfoldable pub ensure_layout : Device → PathBuf → Io (Unit {0})
ensure_layout d root =
    create_private_dir d root
    >> create_private_dirs d (
        join root (codes "machines")
        ∷ join root (codes "images")
        ∷ join root (codes "oci")
        ∷ join (join root (codes "blobs")) (codes "sha256")
        ∷ join root (codes "bin")
        ∷ join root (codes "runtime")
        ∷ [])

module _ (store : StateStore) where
  -- `StateStore::open`
  unfoldable pub open_store : Io StateStore
  open_store = ensure_layout store.device store.root >> give (ok store)

  abbrev pub state_file : PathBuf
  state_file = join store.root (codes "state.json")

  abbrev pub lock_file : PathBuf
  lock_file = join store.root (codes "state.lock")

  abbrev pub temporary_state_path : Str → PathBuf
  temporary_state_path uuid =
      join store.root
        (codes ".state.json." ++ store.process_id ++ codes "." ++ uuid ++ codes ".tmp")

  unfoldable pub read : Io State
  read = attempt (read_to_end store.device state_file) >>= λ content.
      give (contents_of content) >>= λ found. give (decoded store.json found)

  -- The lock is held until the value is dropped.
  unfoldable pub lock : Io State
  unfolding opened
  lock disk =
      (change store.device making lock_file unchanged (λ n. opened (n lock_file) lock_file n)
          >> give (ensure (store.flock disk.clock) failed)
          >> read)
        disk

  -- The new content is written beside the state file.
  unfoldable pub write_temporary : PathBuf → State → Io (Unit {0})
  write_temporary temporary state =
      create_new store.device temporary
      >> write_all store.device temporary (store.json.to_vec_pretty state)
      >> write_all store.device temporary (10 ∷ [])
      >> sync store.device temporary

  -- The closure in `save`.
  unfoldable pub replace : PathBuf → State → Io (Unit {0})
  replace temporary state =
      write_temporary temporary state
      >> rename store.device temporary state_file
      >> sync store.device store.root

  unfoldable pub save : State → Io (Unit {0})
  save state disk =
      let temporary = temporary_state_path (store.new_uuid disk.clock) in
      or_undo (replace temporary state) (remove_file store.device temporary) disk
