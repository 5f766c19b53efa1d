-- ===== src/Host/Storage/Made.antt =====
-- What the creation of the disks leaves when it succeeds.
use spawnr.Prelude.{◌≡◌, refl, Bool, true, false, some, [], ◌∷◌, ok, not, if◌then◌else◌, err-ne-ok}
use spawnr.Prelude.Text.{Str, codes}
use spawnr.Prelude.Actions.{◌>>=◌, give}
use spawnr.Host.State.{MachineRecord}
use spawnr.Host.Files.{PathBuf, Nodes, path_eq, is_directory}
use spawnr.Host.Files.Calls.{exists}
use spawnr.Host.Files.Places.{path_eq-append, path_eq_refl}
use spawnr.Host.Files.Frame.{Zone}
use spawnr.Host.Files.Looks.{>>=-Ends, Looks, >>=-Looks, give-Looks, exists-Looks}
use spawnr.Host.Storage.{Site, MachinePaths, for_record}
use spawnr.Host.Storage.Checks.{assert_domain_layout-Looks}
use spawnr.Host.Storage.Disks.{
  DiskSizes, sibling, create_environment, make_disks, no_disks, create_disks, create_ext4_atomic,
}
use spawnr.Host.Storage.Images.{Place, create_ext4_atomic-Local, create_environment-Local}
use spawnr.Host.Storage.Persistent.{
  top, env_dir, work_dir, disk_zone, environment-Place, workspace-Place,
}
use spawnr.Host.Storage.Formatted.{
  Formatted, Formatted-same, Leaves, Anything, then-Leaves, Anything-Leaves, looks-Leaves,
  or_undo-Leaves, create_ext4_atomic-Leaves, clone_image_atomic-Leaves,
}

-- Both disks are there, and have the magic of ext4.
pub record BothDisks (p : MachinePaths) (n : Nodes) : Type 0 where
  pub of_environment : Formatted p.environment_disk n
  pub of_workspace : Formatted p.workspace_disk n

module _ (s : Site) (r : MachineRecord) where
  abbrev env_disk : PathBuf
  env_disk = codes "environment.raw" ∷ env_dir s r

  abbrev work_disk : PathBuf
  work_disk = codes "workspace.raw" ∷ work_dir s r

  abbrev pub Rooted : Nodes → Type 0
  Rooted n = is_directory (n (top s r)) ≡ true

  -- The entries of the workspace's directory.
  unfoldable in_workspace : PathBuf → Bool
  in_workspace [] = false
  in_workspace (x ∷ dir) = path_eq (work_dir s r) dir

  abbrev workspace_zone : Zone
  workspace_zone = record { inside = in_workspace; root = top s r }

  workspace_zone-Place : Place workspace_zone work_disk
  unfolding in_workspace sibling
  workspace_zone-Place = record {
    at = record {
      inner = path_eq_refl (work_dir s r);
      not_root = (workspace-Place s r).at.not_root;
    };
    beside = λ uuid. record {
      inner = path_eq_refl (work_dir s r);
      not_root = ((workspace-Place s r).beside uuid).not_root;
    };
  }

  environment_outside : in_workspace env_disk ≡ false
  unfolding in_workspace path_eq
  environment_outside = path_eq-append (codes "workspace" ∷ []) (codes "environment" ∷ []) (top s r)

  env_apart : (uuid : Str) → path_eq (sibling uuid env_disk) env_disk ≡ false
  unfolding path_eq sibling
  env_apart uuid = refl

  work_apart : (uuid : Str) → path_eq (sibling uuid work_disk) work_disk ≡ false
  unfolding path_eq sibling
  work_apart uuid = refl

  make_disks-Leaves :
      (base : PathBuf) (sizes : DiskSizes)
      → Leaves Rooted (make_disks s (for_record s r) (some base) sizes) (BothDisks (for_record s r))
  unfolding make_disks create_environment for_record
  make_disks-Leaves base sizes = record {
    leaves = λ t {a} rooted e.
        >>=-Ends (create_environment s (for_record s r) (some base) sizes)
          (λ done. create_ext4_atomic s work_disk sizes.workspace_bytes (codes "SPAWNR_WORKSPACE"))
          t (λ v n. v ≡ ok a → BothDisks (for_record s r) n) (λ x k q. elim (err-ne-ok q) [ ])
          (λ b k q.
            let u = (create_environment s (for_record s r) (some base) sizes t).1 in
            let first =
              (then-Leaves {P = Anything} (Anything-Leaves _)
                  (λ done. clone_image_atomic-Leaves s env_disk env_apart base)).leaves
                t tt k in
            let there =
              ((create_environment-Local s (disk_zone s r) (for_record s r) (environment-Place s r)
                    (workspace-Place s r) (some base) sizes).local
                  t rooted).rooted
                rooted in
            let kept =
              (create_ext4_atomic-Local s workspace_zone work_disk sizes.workspace_bytes
                  (codes "SPAWNR_WORKSPACE") workspace_zone-Place).local
                u there in
            record {
              of_environment = Formatted-same first (kept.frame env_disk environment_outside);
              of_workspace =
                  (create_ext4_atomic-Leaves s work_disk work_apart sizes.workspace_bytes
                      (codes "SPAWNR_WORKSPACE")).leaves
                    u tt q;
            })
          e;
  }

  no_disks-Looks : (p : MachinePaths) → Looks (no_disks s p)
  unfolding no_disks
  no_disks-Looks p = >>=-Looks (exists-Looks s.device p.environment_disk) (λ there. second there)
    where
      second :
          (there : Bool)
          → Looks (
              if there
              then give (ok false)
              else (exists s.device p.workspace_disk >>= λ too. give (ok (not too))))
      second true = give-Looks _
      second false = >>=-Looks (exists-Looks s.device p.workspace_disk) (λ too. give-Looks _)

  pub create_disks-Leaves :
      (base : PathBuf) (sizes : DiskSizes)
      → Leaves Rooted
          (create_disks s (for_record s r) r (some base) sizes)
          (BothDisks (for_record s r))
  unfolding create_disks
  create_disks-Leaves base sizes =
      then-Leaves (looks-Leaves (assert_domain_layout-Looks s (for_record s r) r)) (λ done.
        then-Leaves (looks-Leaves (no_disks-Looks (for_record s r))) (λ free.
          then-Leaves (looks-Leaves (give-Looks _))
            (λ done. or_undo-Leaves _ (make_disks-Leaves base sizes))))
