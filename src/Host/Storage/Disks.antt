-- ===== src/Host/Storage/Disks.antt =====
-- crates/spawnr/src/storage.rs: the two disks of a machine, and the commit and removal of its storage.
use spawnr.Prelude.{
  ℕ, ◌+◌, ◌*◌, Bool, false, Option, none, some, List, [], ◌∷◌, ◌++◌, ◌&&◌, ◌||◌, ◌==◌, not,
  if◌then◌else◌, Result, ok, err, ensure, leb, length, all,
}
use spawnr.Prelude.Text.{Str, codes, bytes, len, is_empty, is_ascii_alphanumeric}
use spawnr.Prelude.Actions.{◌>>=◌, ◌>>◌, give, attempt}
use spawnr.Host.State.{MachineRecord}
use spawnr.Host.Storage.Sparse.{Kernel, Bytes, nth, slice, sparse_copy}
use spawnr.Host.Files.{
  PathBuf, Node, Error, not_found, failed, would_overwrite, image_too_small, bad_label, mkfs_failed,
  not_ext4,
}
use spawnr.Host.Files.Calls.{
  Io, symlink_metadata, exists, set_permissions, remove_file, create_new, rewrite, sync, hard_link,
  read_regular, or_undo,
}
use spawnr.Host.Storage.{
  Site, Clone, cloned, not_supported, clone_failed, MachinePaths, for_record, create, remove,
  assert_domain_layout, sync_parent,
}

abbrev pub min_ext4_bytes : ℕ
min_ext4_bytes = 16 * 1024 * 1024

abbrev pub default_environment_bytes : ℕ
default_environment_bytes = 32 * 1024 * 1024 * 1024

abbrev pub default_workspace_bytes : ℕ
default_workspace_bytes = 64 * 1024 * 1024 * 1024

pub record DiskSizes : Type 0 where
  pub environment_bytes : ℕ
  pub workspace_bytes : ℕ

abbrev pub default : DiskSizes
default = record {
  environment_bytes = default_environment_bytes;
  workspace_bytes = default_workspace_bytes;
}

-- The superblock's magic, in little-endian order.
unfoldable pub has_magic : List ℕ → Bool
has_magic content =
    leb 1082 (length content) && (nth content 1080 + 256 * nth content 1081 == 0xEF53)

unfoldable pub ensure_valid_label : Str → Result Error (Unit {0})
ensure_valid_label label =
    if is_empty label
    then err bad_label
    else ensure
        (leb (len label) 16 && all (λ b. is_ascii_alphanumeric b || (b == b'_')) (bytes label))
        bad_label

unfoldable pub destination_free : Result Error Node → Result Error (Unit {0})
destination_free (ok n) = err would_overwrite
destination_free (err not_found) = ok tt
destination_free (err e) = err e

-- `destination` with the name `<name>.<uuid>.tmp`
unfoldable pub sibling : Str → PathBuf → PathBuf
sibling uuid [] = (codes "." ++ uuid ++ codes ".tmp") ∷ []
sibling uuid (name ∷ above) = (name ++ codes "." ++ uuid ++ codes ".tmp") ∷ above

-- The first `n` bytes.
unfoldable pub stored : ℕ → List ℕ → List ℕ
stored n content = slice (nth content) 0 n

-- How the copy by extents ends.
unfoldable pub copied : Kernel → List ℕ → Result Error (Unit {0}) × List ℕ
copied k content = ended (sparse_copy k (nth content) (length content) (λ i. 0))
  where
    ended : {E : Type 0} → Result E (Unit {0}) × Bytes → Result Error (Unit {0}) × List ℕ
    ended (ok done, new) = (ok tt, slice new 0 (length content))
    ended (err e, new) = (err failed, slice new 0 (length content))

module _ (s : Site) where
  unfoldable pub validate_ext4_image : PathBuf → Io (Unit {0})
  validate_ext4_image p =
      read_regular s.device p >>= λ (mode, content). give (ensure (has_magic content) not_ext4)

  unfoldable pub ensure_destination_absent : PathBuf → Io (Unit {0})
  ensure_destination_absent p =
      attempt (symlink_metadata s.device p) >>= λ metadata. give (destination_free metadata)

  unfoldable pub temporary_sibling : PathBuf → Io PathBuf
  temporary_sibling p disk = (ok (sibling (s.uuid_text (s.new_uuid disk.clock)) p), disk)

  -- The destination goes again when the rest of the commit fails.
  unfoldable pub commit_no_replace : PathBuf → PathBuf → Io (Unit {0})
  commit_no_replace temporary destination =
      hard_link s.device temporary destination
      >> or_undo (remove_file s.device temporary) (remove_file s.device destination)
      >> or_undo (sync_parent s destination) (remove_file s.device destination)

  -- `ioctl(FICLONE)`, and the copy by extents where it is not supported.
  unfoldable pub clone_with : Clone → PathBuf → List ℕ → ℕ → Io (Unit {0})
  clone_with cloned p content now = rewrite s.device p (λ old. content) >> sync s.device p
  clone_with not_supported p content now =
      rewrite s.device p (λ old. [])
      >> rewrite s.device p (λ old. (copied (s.kernel now) content).1)
      >> give (copied (s.kernel now) content).0
      >> sync s.device p
  clone_with clone_failed p content now = give (err failed)

  unfoldable pub clone_sparse_or_reflink : PathBuf → PathBuf → Io (Unit {0})
  clone_sparse_or_reflink source p = read_regular s.device source >>= λ (mode, content).
      create_new s.device p >> (λ disk. clone_with (s.ficlone disk.clock) p content disk.clock disk)

  unfoldable pub clone_image_atomic : PathBuf → PathBuf → Io (Unit {0})
  clone_image_atomic source destination =
      ensure_destination_absent destination
      >> (temporary_sibling destination >>= λ temporary.
          or_undo
            (clone_sparse_or_reflink source temporary
              >> validate_ext4_image temporary
              >> commit_no_replace temporary destination)
            (remove_file s.device temporary))

  -- `Command::new(mkfs_ext4)` on a file, and its status.
  unfoldable pub run_mkfs : PathBuf → Str → Io (Unit {0})
  run_mkfs p label disk =
      (rewrite s.device p (s.formatted disk.clock label)
          >> give (ensure (s.mkfs_succeeds disk.clock label) mkfs_failed))
        disk

  -- The closure in `create_ext4_atomic`.
  unfoldable pub make_image : PathBuf → PathBuf → ℕ → Str → Io (Unit {0})
  make_image temporary destination size label =
      create_new s.device temporary
      >> rewrite s.device temporary (stored size)
      >> run_mkfs temporary label
      >> validate_ext4_image temporary
      >> set_permissions s.device temporary 384
      >> sync s.device temporary
      >> commit_no_replace temporary destination

  unfoldable pub create_ext4_atomic : PathBuf → ℕ → Str → Io (Unit {0})
  create_ext4_atomic destination size label =
      give (ensure (leb min_ext4_bytes size) image_too_small)
      >> give (ensure_valid_label label)
      >> ensure_destination_absent destination
      >> (temporary_sibling destination >>= λ temporary.
          or_undo (make_image temporary destination size label) (remove_file s.device temporary))

  unfoldable pub create_environment : MachinePaths → Option PathBuf → DiskSizes → Io (Unit {0})
  create_environment p none sizes =
      create_ext4_atomic p.environment_disk sizes.environment_bytes (codes "SPAWNR_ENV")
  create_environment p (some base) sizes =
      validate_ext4_image base >> clone_image_atomic base p.environment_disk

  -- The closure in `Storage::create`.
  unfoldable pub make_disks : MachinePaths → Option PathBuf → DiskSizes → Io (Unit {0})
  make_disks p base sizes =
      create_environment p base sizes
      >> create_ext4_atomic p.workspace_disk sizes.workspace_bytes (codes "SPAWNR_WORKSPACE")

  unfoldable pub no_disks : MachinePaths → Io Bool
  no_disks p = exists s.device p.environment_disk >>= λ there.
      if there
      then give (ok false)
      else (exists s.device p.workspace_disk >>= λ there_too. give (ok (not there_too)))

  -- Each removal is tried.
  unfoldable pub remove_disks : MachinePaths → Io (Unit {0})
  remove_disks p = attempt (remove_file s.device p.environment_disk) >>= λ ignored.
      remove_file s.device p.workspace_disk

  -- `Storage::create`
  unfoldable pub create_disks :
      MachinePaths → MachineRecord → Option PathBuf → DiskSizes → Io (Unit {0})
  create_disks p r base sizes =
      assert_domain_layout s p r
      >> (no_disks p >>= λ free.
          give (ensure free would_overwrite) >> or_undo (make_disks p base sizes) (remove_disks p))

  unfoldable pub commit_machine_storage : MachineRecord → PathBuf → Io (Unit {0})
  commit_machine_storage r base =
      let p = for_record s r in
      create s p r
      >> or_undo (give (ensure s.mkfs_found not_found) >> create_disks p r (some base) default)
          (remove s p r)

  -- `vmm::stop` is an operation of its own, that may fail.
  unfoldable pub remove_machine : Io (Unit {0}) → MachineRecord → Io (Unit {0})
  remove_machine vmm_stop r = vmm_stop >> remove s (for_record s r) r
