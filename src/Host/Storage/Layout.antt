-- ===== src/Host/Storage/Layout.antt =====
-- What a creation that succeeds leaves in the machine's directory.
use spawnr.Prelude.{
  ℕ, ◌≡◌, ◌%◌, refl, Option, none, some, List, [], ◌∷◌, ◌++◌, Result, ok, err, context,
}
use spawnr.Prelude.Text.{Str, codes}
use spawnr.Prelude.Actions.{◌>>=◌, ◌>>◌, give, >>=-Triple, give-Triple}
use spawnr.Host.State.{MachineRecord}
use spawnr.Host.Files.Places.{path_eq_refl}
use spawnr.Host.Files.{
  PathBuf, parent, join, Node, directory, file, Nodes, Disk, path_eq, Error, no_parent,
}
use spawnr.Host.Files.Calls.{create_private_dir, sync, set_permissions}
use spawnr.Host.Files.Known.{
  Facts, lack, learn, Knows, Learns, sync-Learns, create_new-Learns, write_all-Learns,
  set_permissions-Learns, create_dir_all-Learns,
}
use spawnr.Host.Storage.{
  Site, Json, MachinePaths, for_record, StorageDomain, environment, workspace, session, sync_parent,
  write_json_new, write_marker, write_domain_marker, write_domain_markers, lay_out, ownership_of,
  domain_of, owner_file, domain_file,
}

-- A real directory that only the user can enter.
pub record IsPrivate (euid : ℕ) (n : Option Node) : Type 0 where
  pub mode : ℕ
  pub is_there : n ≡ some (directory mode euid)
  pub closed : mode % 64 ≡ 0

-- A file that only the user can read, with this value in it.
pub record Marked {A : Type 0} (json : Json A) (value : A) (n : Option Node) : Type 0 where
  pub mode : ℕ
  pub content : List ℕ
  pub is_there : n ≡ some (file mode content)
  pub closed : mode % 64 ≡ 0
  pub reads : json.from_reader content ≡ some value

-- The machine's directory with its ownership marker.
pub record Owned (s : Site) (p : MachinePaths) (r : MachineRecord) (n : Nodes) : Type 0 where
  pub directory : IsPrivate s.device.euid (n p.root)
  pub marker : Marked s.ownership_json (ownership_of r) (n p.owner_marker)

pub record Domain (s : Site) (r : MachineRecord) (dir : PathBuf) (domain : StorageDomain)
    (n : Nodes) : Type 0 where
  pub directory : IsPrivate s.device.euid (n dir)
  pub marker : Marked s.domain_json (domain_of r domain) (n (join dir domain_file))

pub record Laid (s : Site) (p : MachinePaths) (r : MachineRecord) (n : Nodes) : Type 0 where
  pub owned : Owned s p r n
  pub of_environment : Domain s r p.environment_dir environment n
  pub of_workspace : Domain s r p.workspace_dir workspace n
  pub of_session : Domain s r p.session_dir session n

abbrev env : PathBuf
env = codes "environment" ∷ []

abbrev work : PathBuf
work = codes "workspace" ∷ []

abbrev sess : PathBuf
sess = codes "session" ∷ []

-- Right after `create_dir`.
abbrev pub fresh : Site → Facts
fresh s =
    learn [] (directory s.device.directory_mode s.device.euid)
      (lack env (lack work (lack sess (λ q. none))))

abbrev closed_dir : Site → Node
closed_dir s = directory 448 s.device.euid

abbrev json_file : {A : Type 0} → Json A → A → Node
json_file json value = file 384 (json.to_vec_pretty value ++ (10 ∷ []))

module _ (s : Site) (root : PathBuf) where
  abbrev written : {A : Type 0} → Json A → PathBuf → A → Facts → Facts
  written json p value k =
      learn p (json_file json value)
        (learn p (file 384 (json.to_vec_pretty value)) (learn p (file 384 []) k))

  own_write : (p : PathBuf) (new : Node) (k : Facts) → learn p new k p ≡ some (some new)
  own_write p new k = rw (path_eq_refl p) refl

  write_json_new-Learns :
      {A : Type 0} (json : Json A) (p : PathBuf) (value : A) (k : Facts)
      → Learns root k (write_json_new s json (p ++ root) value) (written json p value k)
  unfolding write_json_new sync_parent
  write_json_new-Learns json p value k =
      >>=-Triple
        (>>=-Triple
          (>>=-Triple
            (>>=-Triple (create_new-Learns root s.device p k) (λ done.
              write_all-Learns root s.device p (json.to_vec_pretty value) [] 384 _
                (own_write p (file 384 []) k)))
            (λ done.
              write_all-Learns root s.device p (10 ∷ []) (json.to_vec_pretty value) 384 _
                (own_write p (file 384 (json.to_vec_pretty value)) (learn p (file 384 []) k))))
          (λ done. sync-Learns root s.device (p ++ root) _))
        (λ done. given (context (parent (p ++ root)) no_parent) _)
    where
      given :
          (v : Result Error PathBuf) (k : Facts)
          → Learns root k (give v >>= λ above. sync s.device above) k
      given (ok above) k =
          >>=-Triple (give-Triple (ok above) (λ t h. h)) (λ a. sync-Learns root s.device a k)
      given (err e) k =
          >>=-Triple (give-Triple {Q = λ a. Knows root k} (err e) (λ t h. tt))
            (λ a. sync-Learns root s.device a k)

  abbrev made : PathBuf → Facts → Facts
  made p k = learn p (closed_dir s) (learn p (directory s.device.directory_mode s.device.euid) k)

  create_private_dir-Learns :
      (x : Str) (p : PathBuf) (mode uid : ℕ) (k : Facts)
      → k (x ∷ p) ≡ some none
      → k p ≡ some (some (directory mode uid))
      → Learns root k (create_private_dir s.device (x ∷ (p ++ root))) (made (x ∷ p) k)
  unfolding create_private_dir
  create_private_dir-Learns x p mode uid k h g =
      >>=-Triple (create_dir_all-Learns root s.device x p mode uid k h g) (λ done.
        set_permissions-Learns root s.device (x ∷ p) 448 s.device.directory_mode s.device.euid _
          (own_write (x ∷ p) (directory s.device.directory_mode s.device.euid) k))

  abbrev with_dirs : Facts
  with_dirs = made sess (made work (made env (learn [] (closed_dir s) (fresh s))))

  abbrev with_owner : MachineRecord → Facts
  with_owner r = written s.ownership_json (owner_file ∷ []) (ownership_of r) with_dirs

  abbrev all_laid : MachineRecord → Facts
  all_laid r = written s.domain_json (domain_file ∷ sess) (domain_of r session) (
      written s.domain_json (domain_file ∷ work) (domain_of r workspace)
        (written s.domain_json (domain_file ∷ env) (domain_of r environment) (with_owner r)))

module _ (s : Site) (r : MachineRecord) where
  abbrev root_of : PathBuf
  root_of = s.uuid_text r.id ∷ s.machines_dir

  dirs-Learns :
      Learns root_of
        (fresh s)
        (set_permissions s.device root_of 448
          >> create_private_dir s.device (codes "environment" ∷ root_of)
          >> create_private_dir s.device (codes "workspace" ∷ root_of)
          >> create_private_dir s.device (codes "session" ∷ root_of))
        (with_dirs s root_of)
  unfolding path_eq
  dirs-Learns =
      >>=-Triple
        (>>=-Triple
          (>>=-Triple
            (set_permissions-Learns root_of s.device [] 448 s.device.directory_mode s.device.euid
              (fresh s) refl)
            (λ done.
              create_private_dir-Learns s root_of (codes "environment") [] 448 s.device.euid _ refl
                refl))
          (λ done.
            create_private_dir-Learns s root_of (codes "workspace") [] 448 s.device.euid _ refl
              refl))
        (λ done.
          create_private_dir-Learns s root_of (codes "session") [] 448 s.device.euid _ refl refl)

  pub lay_out-Learns :
      Learns root_of (fresh s) (lay_out s (for_record s r) r s.machines_dir) (all_laid s root_of r)
  unfolding lay_out for_record write_marker write_domain_markers write_domain_marker
  lay_out-Learns =
      >>=-Triple
        (>>=-Triple
          (>>=-Triple
            (>>=-Triple dirs-Learns (λ done.
              write_json_new-Learns s root_of s.ownership_json (owner_file ∷ []) (ownership_of r)
                _))
            (λ done.
              >>=-Triple
                (>>=-Triple
                  (write_json_new-Learns s root_of s.domain_json (domain_file ∷ env)
                    (domain_of r environment) _)
                  (λ done.
                    write_json_new-Learns s root_of s.domain_json (domain_file ∷ work)
                      (domain_of r workspace) _))
                (λ done.
                  write_json_new-Learns s root_of s.domain_json (domain_file ∷ sess)
                    (domain_of r session) _)))
          (λ done. sync-Learns root_of s.device root_of _))
        (λ done. sync-Learns root_of s.device s.machines_dir _)

  module _ (t : Disk) (h : Knows root_of (all_laid s root_of r) t) where
    directory_known :
        (p : PathBuf)
        → all_laid s root_of r p ≡ some (some (closed_dir s))
        → IsPrivate s.device.euid (t.nodes (p ++ root_of))
    directory_known p e = record {
      mode = 448;
      is_there = h.known p (some (closed_dir s)) e;
      closed = refl;
    }

    marker_known :
        {A : Type 0} (json : Json A) (value : A) (p : PathBuf)
        → all_laid s root_of r p ≡ some (some (json_file json value))
        → Marked json value (t.nodes (p ++ root_of))
    marker_known json value p e = record {
      mode = 384;
      content = json.to_vec_pretty value ++ (10 ∷ []);
      is_there = h.known p (some (json_file json value)) e;
      closed = refl;
      reads = json.from_reader-to_vec_pretty value;
    }

    pub Knows-Laid : Laid s (for_record s r) r t.nodes
    unfolding for_record path_eq
    Knows-Laid = record {
      owned = record {
        directory = directory_known [] refl;
        marker = marker_known s.ownership_json (ownership_of r) (owner_file ∷ []) refl;
      };
      of_environment = record {
        directory = directory_known env refl;
        marker = marker_known s.domain_json (domain_of r environment) (domain_file ∷ env) refl;
      };
      of_workspace = record {
        directory = directory_known work refl;
        marker = marker_known s.domain_json (domain_of r workspace) (domain_file ∷ work) refl;
      };
      of_session = record {
        directory = directory_known sess refl;
        marker = marker_known s.domain_json (domain_of r session) (domain_file ∷ sess) refl;
      };
    }
