-- ===== src/Host/Storage/Region.antt =====
-- Which entries the operations on a machine's storage can change.
use spawnr.Prelude.{[], ◌∷◌}
use spawnr.Host.State.{MachineRecord}
use spawnr.Host.Files.{PathBuf, join, under}
use spawnr.Host.Files.Frame.{Zone, Inner, Local, >>=-Local, give-Local}
use spawnr.Host.Files.Local.{
  create_new-Local, write_all-Local, sync-Local, symlink_metadata-Local, read_regular-Local,
}
use spawnr.Host.Storage.{
  Site, Json, MachinePaths, StorageDomain, environment, workspace, session,
  assert_private_directory, sync_parent, write_json_new, read_json_regular, assert_owned,
  assert_domain, assert_domain_layout, domain_file, private_directory,
}

module _ (s : Site) (z : Zone) where
  pub assert_private_directory-Local : (p : PathBuf) → Local z (assert_private_directory s p)
  unfolding assert_private_directory
  assert_private_directory-Local p =
      >>=-Local z (symlink_metadata-Local z s.device p)
        (λ m. give-Local z (private_directory s.device.euid m))

  pub sync_parent-Local : (p : PathBuf) → Local z (sync_parent s p)
  unfolding sync_parent
  sync_parent-Local p = >>=-Local z (give-Local z _) (λ above. sync-Local z s.device above)

  pub write_json_new-Local :
      {A : Type 0} (json : Json A) (p : PathBuf) (value : A)
      → Inner z p
      → Local z (write_json_new s json p value)
  unfolding write_json_new
  write_json_new-Local json p value i =
      >>=-Local z
        (>>=-Local z
          (>>=-Local z
            (>>=-Local z (create_new-Local z s.device p i)
              (λ done. write_all-Local z s.device p (json.to_vec_pretty value) i))
            (λ done. write_all-Local z s.device p (10 ∷ []) i))
          (λ done. sync-Local z s.device p))
        (λ done. sync_parent-Local p)

  pub read_json_regular-Local :
      {A : Type 0} (json : Json A) (p : PathBuf) → Local z (read_json_regular s json p)
  unfolding read_json_regular
  read_json_regular-Local json p =
      >>=-Local z (read_regular-Local z s.device p)
        (λ c. >>=-Local z (give-Local z _) (λ done. give-Local z _))

  pub assert_owned-Local : (p : MachinePaths) (r : MachineRecord) → Local z (assert_owned s p r)
  unfolding assert_owned
  assert_owned-Local p r = >>=-Local z (assert_private_directory-Local p.root) (λ done.
      >>=-Local z (read_json_regular-Local s.ownership_json p.owner_marker)
        (λ marker. give-Local z _))

  pub assert_domain-Local :
      (r : MachineRecord) (dir : PathBuf) (domain : StorageDomain)
      → Local z (assert_domain s r dir domain)
  unfolding assert_domain
  assert_domain-Local r dir domain = >>=-Local z (assert_private_directory-Local dir) (λ done.
      >>=-Local z (read_json_regular-Local s.domain_json (join dir domain_file))
        (λ marker. give-Local z _))

  pub assert_domain_layout-Local :
      (p : MachinePaths) (r : MachineRecord) → Local z (assert_domain_layout s p r)
  unfolding assert_domain_layout
  assert_domain_layout-Local p r =
      >>=-Local z
        (>>=-Local z
          (>>=-Local z (assert_owned-Local p r)
            (λ done. assert_domain-Local r p.environment_dir environment))
          (λ done. assert_domain-Local r p.workspace_dir workspace))
        (λ done. assert_domain-Local r p.session_dir session)

-- The machine's own directory, and what stands below it.
abbrev pub tree_of : PathBuf → Zone
tree_of root = record { inside = under root; root = root }
