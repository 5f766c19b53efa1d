-- ===== src/Host/Storage/Images.antt =====
-- Which entries the creation of the disks can change.
use spawnr.Prelude.{ℕ, Bool, true, false, Option, none, some, List, ok, not, if◌then◌else◌}
use spawnr.Prelude.Text.{Str, codes}
use spawnr.Prelude.Actions.{◌>>=◌, give}
use spawnr.Host.State.{MachineRecord}
use spawnr.Host.Files.{PathBuf, look}
use spawnr.Host.Files.Calls.{Io, exists}
use spawnr.Host.Files.Frame.{
  Zone, Kept-refl, Inner, Local, >>=-Local, give-Local, attempt-Local, or_undo-Local,
}
use spawnr.Host.Files.Local.{
  symlink_metadata-Local, set_permissions-Local, remove_file-Local, create_new-Local, rewrite-Local,
  sync-Local, hard_link-Local, read_regular-Local,
}
use spawnr.Host.Storage.{Site, Clone, cloned, not_supported, clone_failed, MachinePaths}
use spawnr.Host.Storage.Disks.{
  DiskSizes, validate_ext4_image, ensure_destination_absent, sibling, temporary_sibling,
  commit_no_replace, clone_with, clone_sparse_or_reflink, clone_image_atomic, run_mkfs, make_image,
  create_ext4_atomic, create_environment, make_disks, no_disks, remove_disks, create_disks, stored,
  ensure_valid_label,
}
use spawnr.Host.Storage.Region.{sync_parent-Local, assert_domain_layout-Local}

-- A file of the zone, with the names beside it that a temporary file can get.
pub record Place (z : Zone) (p : PathBuf) : Type 0 where
  pub at : Inner z p
  pub beside : (uuid : Str) → Inner z (sibling uuid p)

module _ (s : Site) (z : Zone) where
  pub validate_ext4_image-Local : (p : PathBuf) → Local z (validate_ext4_image s p)
  unfolding validate_ext4_image
  validate_ext4_image-Local p = >>=-Local z (read_regular-Local z s.device p) (λ c. give-Local z _)

  ensure_destination_absent-Local : (p : PathBuf) → Local z (ensure_destination_absent s p)
  unfolding ensure_destination_absent
  ensure_destination_absent-Local p =
      >>=-Local z (attempt-Local z (symlink_metadata-Local z s.device p)) (λ m. give-Local z _)

  commit_no_replace-Local :
      (t p : PathBuf) → Inner z t → Inner z p → Local z (commit_no_replace s t p)
  unfolding commit_no_replace
  commit_no_replace-Local t p i j =
      >>=-Local z
        (>>=-Local z (hard_link-Local z s.device t p j) (λ done.
          or_undo-Local z (remove_file-Local z s.device t i) (remove_file-Local z s.device p j)))
        (λ done. or_undo-Local z (sync_parent-Local s z p) (remove_file-Local z s.device p j))

  clone_with-Local :
      (c : Clone) (p : PathBuf) (content : List ℕ) (now : ℕ)
      → Inner z p
      → Local z (clone_with s c p content now)
  unfolding clone_with
  clone_with-Local cloned p content now i =
      >>=-Local z (rewrite-Local z s.device p _ i) (λ done. sync-Local z s.device p)
  clone_with-Local not_supported p content now i =
      >>=-Local z
        (>>=-Local z
          (>>=-Local z (rewrite-Local z s.device p _ i) (λ done. rewrite-Local z s.device p _ i))
          (λ done. give-Local z _))
        (λ done. sync-Local z s.device p)
  clone_with-Local clone_failed p content now i = give-Local z _

  clone_sparse_or_reflink-Local :
      (source p : PathBuf) → Inner z p → Local z (clone_sparse_or_reflink s source p)
  unfolding clone_sparse_or_reflink
  clone_sparse_or_reflink-Local source p i =
      >>=-Local z (read_regular-Local z s.device source) (λ (mode, content).
        >>=-Local z (create_new-Local z s.device p i) (λ done. record {
          local = λ disk h.
              (clone_with-Local (s.ficlone disk.clock) p content disk.clock i).local disk h;
        }))

  -- A computation that goes on with a temporary name.
  named :
      {A : Type 0} (p : PathBuf) (f : PathBuf → Io A)
      → ((uuid : Str) → Local z (f (sibling uuid p)))
      → Local z (temporary_sibling s p >>= f)
  unfolding temporary_sibling ◌>>=◌
  named p f l = record { local = λ disk h. (l (s.uuid_text (s.new_uuid disk.clock))).local disk h }

  clone_image_atomic-Local :
      (source p : PathBuf) → Place z p → Local z (clone_image_atomic s source p)
  unfolding clone_image_atomic
  clone_image_atomic-Local source p i = >>=-Local z (ensure_destination_absent-Local p) (λ done.
      named p _ (λ uuid.
        let t = sibling uuid p in
        or_undo-Local z
          (>>=-Local z
            (>>=-Local z (clone_sparse_or_reflink-Local source t (i.beside uuid))
              (λ done. validate_ext4_image-Local t))
            (λ done. commit_no_replace-Local t p (i.beside uuid) i.at))
          (remove_file-Local z s.device t (i.beside uuid))))

  run_mkfs-Local : (p : PathBuf) (label : Str) → Inner z p → Local z (run_mkfs s p label)
  unfolding run_mkfs
  run_mkfs-Local p label i = record {
    local = λ disk h.
        (>>=-Local z (rewrite-Local z s.device p (s.formatted disk.clock label) i)
            (λ done. give-Local z _)).local
          disk h;
  }

  make_image-Local :
      (t p : PathBuf) (size : ℕ) (label : Str)
      → Inner z t
      → Inner z p
      → Local z (make_image s t p size label)
  unfolding make_image
  make_image-Local t p size label i j =
      >>=-Local z
        (>>=-Local z
          (>>=-Local z
            (>>=-Local z
              (>>=-Local z
                (>>=-Local z (create_new-Local z s.device t i)
                  (λ done. rewrite-Local z s.device t (stored size) i))
                (λ done. run_mkfs-Local t label i))
              (λ done. validate_ext4_image-Local t))
            (λ done. set_permissions-Local z s.device t 384 i))
          (λ done. sync-Local z s.device t))
        (λ done. commit_no_replace-Local t p i j)

  pub create_ext4_atomic-Local :
      (p : PathBuf) (size : ℕ) (label : Str)
      → Place z p
      → Local z (create_ext4_atomic s p size label)
  unfolding create_ext4_atomic
  create_ext4_atomic-Local p size label i =
      >>=-Local z
        (>>=-Local z
          (>>=-Local z (give-Local z _) (λ done. give-Local z (ensure_valid_label label)))
          (λ done. ensure_destination_absent-Local p))
        (λ done. named p _ (λ uuid.
          or_undo-Local z (make_image-Local (sibling uuid p) p size label (i.beside uuid) i.at)
            (remove_file-Local z s.device (sibling uuid p) (i.beside uuid))))

  exists-Local : (p : PathBuf) → Local z (exists s.device p)
  unfolding exists look
  exists-Local p = record { local = λ disk h. Kept-refl z disk.nodes }

  module _ (p : MachinePaths) (i : Place z p.environment_disk) (j : Place z p.workspace_disk) where
    pub create_environment-Local :
        (base : Option PathBuf) (sizes : DiskSizes) → Local z (create_environment s p base sizes)
    unfolding create_environment
    create_environment-Local none sizes =
        create_ext4_atomic-Local p.environment_disk sizes.environment_bytes (codes "SPAWNR_ENV") i
    create_environment-Local (some base) sizes =
        >>=-Local z (validate_ext4_image-Local base)
          (λ done. clone_image_atomic-Local base p.environment_disk i)

    make_disks-Local :
        (base : Option PathBuf) (sizes : DiskSizes) → Local z (make_disks s p base sizes)
    unfolding make_disks
    make_disks-Local base sizes =
        >>=-Local z (create_environment-Local base sizes)
          (λ done. create_ext4_atomic-Local p.workspace_disk sizes.workspace_bytes _ j)

    after_first-Local :
        (b : Bool)
        → Local z (
            if b
            then give (ok false)
            else (exists s.device p.workspace_disk >>= λ there_too. give (ok (not there_too))))
    after_first-Local true = give-Local z _
    after_first-Local false =
        >>=-Local z (exists-Local p.workspace_disk) (λ there_too. give-Local z _)

    pub create_disks-Local :
        (r : MachineRecord) (base : Option PathBuf) (sizes : DiskSizes)
        → Local z (create_disks s p r base sizes)
    unfolding create_disks no_disks remove_disks
    create_disks-Local r base sizes = >>=-Local z (assert_domain_layout-Local s z p r) (λ done.
        >>=-Local z
          (>>=-Local z (exists-Local p.environment_disk) (λ there. after_first-Local there))
          (λ free. >>=-Local z (give-Local z _) (λ done.
            or_undo-Local z (make_disks-Local base sizes) (
              >>=-Local z (attempt-Local z (remove_file-Local z s.device p.environment_disk i.at))
                (λ ignored. remove_file-Local z s.device p.workspace_disk j.at)))))
