-- ===== src/Host/Files/Calls.antt =====
-- The single operations of `std::fs`, and `create_private_dir` of crates/spawnr/src/paths.rs.
use spawnr.Prelude.{
  ℕ, Bool, true, false, Option, none, some, List, [], ◌++◌, Result, ok, err, take, context,
}
use spawnr.Prelude.Actions.{Action, ◌>>◌, attempt}
use spawnr.Host.Files.{
  PathBuf, Node, directory, file, link, nothing, a_file, a_directory, Error, not_found, failed,
  not_regular, inspecting, reading, making, writing, securing, linking, renaming, deleting, syncing,
  Break, Nodes, Disk, Device, place, make_all, without, removed_tree, removed_file, secured, edited,
  linked_to, renamed, change, look, is_directory, parent_is_directory,
}

abbrev pub Io : Type 0 → Type 0
Io A = Action Disk Error A

-- The entry itself, a symbolic link included.
abbrev pub entry : Option Node → Result Error Node
entry n = context n not_found

-- `Path::exists`, which follows a link and gives false for an error.
abbrev pub leads_somewhere : Option Node → Bool
leads_somewhere none = false
leads_somewhere (some (directory mode uid)) = true
leads_somewhere (some (file mode content)) = true
leads_somewhere (some (link nothing)) = false
leads_somewhere (some (link a_file)) = true
leads_somewhere (some (link a_directory)) = true

-- What a descriptor of the file at the path reads, where a link is not followed.
abbrev pub regular : Option Node → Result Error (ℕ × List ℕ)
regular none = err not_found
regular (some (directory mode uid)) = err not_regular
regular (some (file mode content)) = ok (mode, content)
regular (some (link t)) = err failed

abbrev pub unchanged : Break → Nodes → Nodes
unchanged b n = n

abbrev pub answer : Result Error Bool → Bool
answer (ok b) = b
answer (err e) = false

-- The file is read whether or not a link leads to it.
abbrev pub followed : Option Node → Result Error (List ℕ)
followed none = err not_found
followed (some (directory mode uid)) = err failed
followed (some (file mode content)) = ok content
followed (some (link t)) = err failed

module _ (d : Device) where
  unfoldable pub symlink_metadata : PathBuf → Io Node
  symlink_metadata p = look d inspecting p (λ n. entry (n p))

  unfoldable pub exists : PathBuf → Io Bool
  unfolding attempt
  exists p s =
      let r = look d inspecting p (λ n. ok (leads_somewhere (n p))) s in (ok (answer r.0), r.1)

  -- `fs::create_dir`
  unfoldable pub create_dir : PathBuf → Io (Unit {0})
  create_dir p = change d making p unchanged (place (directory d.directory_mode d.euid) p)

  -- `fs::create_dir_all`
  unfoldable pub create_dir_all : PathBuf → Io (Unit {0})
  create_dir_all p = change d making p unchanged (make_all (directory d.directory_mode d.euid) p)

  -- `fs::set_permissions`
  unfoldable pub set_permissions : PathBuf → ℕ → Io (Unit {0})
  unfolding secured
  set_permissions p mode = change d securing p unchanged (λ n. secured mode (n p) p n)

  unfoldable pub create_private_dir : PathBuf → Io (Unit {0})
  create_private_dir p = create_dir_all p >> set_permissions p 448

  -- `fs::remove_dir_all`, which may stop with a part of the tree left.
  unfoldable pub remove_dir_all : PathBuf → Io (Unit {0})
  unfolding removed_tree
  remove_dir_all p = change d deleting p (λ b n. without p b.left n) (λ n. removed_tree (n p) p n)

  -- `fs::remove_file`
  unfoldable pub remove_file : PathBuf → Io (Unit {0})
  unfolding removed_file
  remove_file p = change d deleting p unchanged (λ n. removed_file (n p) p n)

  -- `OpenOptions` with `create_new(true)` and `mode(0o600)`
  unfoldable pub create_new : PathBuf → Io (Unit {0})
  create_new p = change d making p unchanged (place (file 384 []) p)

  -- `file.write_all` at the end of a file that the process has created.
  unfoldable pub write_all : PathBuf → List ℕ → Io (Unit {0})
  unfolding edited
  write_all p text =
      change d writing p (λ b n. edited (λ old. old ++ take b.written text) (n p) p n)
        (λ n. ok (edited (λ old. old ++ text) (n p) p n))

  -- The content of an open file becomes what another program or call leaves in it.
  unfoldable pub rewrite : PathBuf → (List ℕ → List ℕ) → Io (Unit {0})
  unfolding edited
  rewrite p edit = change d writing p unchanged (λ n. ok (edited edit (n p) p n))

  -- `file.sync_all`, and the same of a directory.
  unfoldable pub sync : PathBuf → Io (Unit {0})
  sync p = look d syncing p (λ n. ok tt)

  unfoldable pub hard_link : PathBuf → PathBuf → Io (Unit {0})
  hard_link t p = change d linking p unchanged (λ n. linked_to (n t) p n)

  unfoldable pub rename : PathBuf → PathBuf → Io (Unit {0})
  unfolding renamed
  rename t p =
      change d renaming p unchanged
        (λ n. renamed (n t) (is_directory (n p)) (parent_is_directory p n) t p n)

  -- Open with `O_NOFOLLOW`, the check of `is_file`, and the file's mode and content.
  unfoldable pub read_regular : PathBuf → Io (ℕ × List ℕ)
  read_regular p = look d reading p (λ n. regular (n p))

  -- `File::open` and `read_to_end`
  unfoldable pub read_to_end : PathBuf → Io (List ℕ)
  read_to_end p = look d reading p (λ n. followed (n p))

module _ {W E : Type 0} where
  abbrev pub undone : {A B : Type 0} → Result E A → W → Action W E B → Result E A × W
  undone (ok a) s undo = (ok a, s)
  undone (err e) s undo = (err e, (undo s).1)

  -- `let result = m; if result.is_err() { let _ = undo; } result`
  unfoldable pub or_undo : {A B : Type 0} → Action W E A → Action W E B → Action W E A
  or_undo m undo s = undone (m s).0 (m s).1 undo
