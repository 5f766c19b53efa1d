-- ===== src/Host/Storage/Persistent.antt =====
-- The files of the two persistent domains, which hold no marker and no directory of the layout.
use mathlib.Core.Path.{subst}
use spawnr.Prelude.{◌≡◌, refl, sym, Bool, true, false, [], ◌∷◌, ◌++◌, ◌||◌, ◌&&◌, not, arith}
use spawnr.Prelude.Text.{Str, codes, str_eq, str_eq_iff}
use spawnr.Host.State.{MachineRecord}
use spawnr.Host.Files.{PathBuf, Nodes, path_eq, under}
use spawnr.Host.Files.Places.{path_eq-append, path_eq_refl, path_eq-eq, under-append}
use spawnr.Host.Files.Frame.{Zone}
use spawnr.Host.Storage.{
  Site, for_record, StorageDomain, environment, workspace, session, owner_file, domain_file,
  ownership_of, domain_of,
}
use spawnr.Host.Storage.Disks.{sibling}
use spawnr.Host.Storage.Layout.{IsPrivate, Marked, Owned, Domain, Laid}
use spawnr.Host.Storage.Images.{Place}

module _ (s : Site) (r : MachineRecord) where
  abbrev pub top : PathBuf
  top = s.uuid_text r.id ∷ s.machines_dir

  abbrev pub env_dir : PathBuf
  env_dir = codes "environment" ∷ top

  abbrev pub work_dir : PathBuf
  work_dir = codes "workspace" ∷ top

  -- The entries of the two persistent domains, but for their markers.
  unfoldable pub beside_markers : PathBuf → Bool
  beside_markers [] = false
  beside_markers (x ∷ dir) =
      not (str_eq x domain_file) && (path_eq env_dir dir || path_eq work_dir dir)

  abbrev pub disk_zone : Zone
  disk_zone = record { inside = beside_markers; root = top }

  pub environment-Place : Place disk_zone (codes "environment.raw" ∷ env_dir)
  unfolding beside_markers path_eq sibling
  environment-Place = record {
    at = record {
      inner = ground (arith, path_eq_refl env_dir);
      not_root = path_eq-append (codes "environment.raw" ∷ codes "environment" ∷ []) [] top;
    };
    beside = λ uuid. record {
      inner = ground (arith, path_eq_refl env_dir);
      not_root =
          path_eq-append
            ((codes "environment.raw" ++ codes "." ++ uuid ++ codes ".tmp")
              ∷ codes "environment"
              ∷ [])
            [] top;
    };
  }

  pub workspace-Place : Place disk_zone (codes "workspace.raw" ∷ work_dir)
  unfolding beside_markers path_eq sibling
  workspace-Place = record {
    at = record {
      inner = ground (arith, path_eq_refl work_dir);
      not_root = path_eq-append (codes "workspace.raw" ∷ codes "workspace" ∷ []) [] top;
    };
    beside = λ uuid. record {
      inner = ground (arith, path_eq_refl work_dir);
      not_root =
          path_eq-append
            ((codes "workspace.raw" ++ codes "." ++ uuid ++ codes ".tmp") ∷ codes "workspace" ∷ [])
            [] top;
    };
  }

  -- No marker and no directory of the layout is in the zone.
  outside_marker : (dir : PathBuf) → beside_markers (domain_file ∷ dir) ≡ false
  unfolding beside_markers
  outside_marker dir = ground (arith, str_eq_iff domain_file domain_file)

  outside_above : (x : Str) → beside_markers (x ∷ top) ≡ false
  unfolding beside_markers path_eq
  outside_above x = ground (
    arith,
    path_eq-append (codes "environment" ∷ []) [] top,
    path_eq-append (codes "workspace" ∷ []) [] top,
  )

  outside_top : beside_markers top ≡ false
  unfolding beside_markers path_eq
  outside_top = ground (
    arith,
    path_eq-append (codes "environment" ∷ s.uuid_text r.id ∷ []) [] s.machines_dir,
    path_eq-append (codes "workspace" ∷ s.uuid_text r.id ∷ []) [] s.machines_dir,
  )

  in_tree : (x y : Str) (dir : PathBuf) → path_eq (y ∷ top) dir ≡ true → under top (x ∷ dir) ≡ true
  in_tree x y dir e =
      subst (λ d. under top (x ∷ d) ≡ true) (path_eq-eq (y ∷ top) dir e)
        (under-append top (x ∷ y ∷ []))

  -- Nor is anything outside the machine's directory.
  pub outside_tree : (q : PathBuf) → under top q ≡ false → beside_markers q ≡ false
  unfolding beside_markers
  outside_tree [] h = refl
  outside_tree (x ∷ dir) h =
      ground (arith, in_tree x (codes "environment") dir, in_tree x (codes "workspace") dir)

  module _ (n m : Nodes) (same : (q : PathBuf) → beside_markers q ≡ false → m q ≡ n q) where
    Domain-same :
        (y : Str) (domain : StorageDomain)
        → Domain s r (y ∷ top) domain n
        → Domain s r (y ∷ top) domain m
    Domain-same y domain d = record {
      directory =
          subst (λ o. IsPrivate s.device.euid o) (sym (same (y ∷ top) (outside_above y)))
            d.directory;
      marker =
          subst (λ o. Marked s.domain_json (domain_of r domain) o)
            (sym (same (domain_file ∷ y ∷ top) (outside_marker (y ∷ top)))) d.marker;
    }

    pub Owned-same : Owned s (for_record s r) r n → Owned s (for_record s r) r m
    unfolding for_record
    Owned-same o = record {
      directory = subst (λ x. IsPrivate s.device.euid x) (sym (same top outside_top)) o.directory;
      marker =
          subst (λ x. Marked s.ownership_json (ownership_of r) x)
            (sym (same (owner_file ∷ top) (outside_above owner_file))) o.marker;
    }

    pub Laid-same : Laid s (for_record s r) r n → Laid s (for_record s r) r m
    unfolding for_record
    Laid-same l = record {
      owned = Owned-same l.owned;
      of_environment = Domain-same (codes "environment") environment l.of_environment;
      of_workspace = Domain-same (codes "workspace") workspace l.of_workspace;
      of_session = Domain-same (codes "session") session l.of_session;
    }
