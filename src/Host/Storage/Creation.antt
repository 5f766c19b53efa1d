-- ===== src/Host/Storage/Creation.antt =====
-- What the creation of a machine's directory leaves.
use spawnr.Prelude.{
  ◌≡◌, refl, sym, ap, ◌∙◌, false, Option, none, some, [], ◌∷◌, ◌++◌, Result, ok, err, Bool-cases,
  inl, inr,
}
use spawnr.Prelude.Text.{Str, codes}
use spawnr.Prelude.Actions.{◌>>=◌, ◌>>◌, give, After}
use spawnr.Host.State.{MachineRecord}
use spawnr.Host.Files.{
  PathBuf, Node, directory, Error, Nodes, Disk, path_eq, under, set, is_directory,
}
use spawnr.Host.Files.Calls.{or_undo, create_dir, remove_dir_all}
use spawnr.Host.Files.Places.{
  path_eq-append, under_refl, under-append, set-same, set-other, without-other, without-under,
}
use spawnr.Host.Files.Frame.{Inner, Local, >>=-Local, apart}
use spawnr.Host.Files.Local.{set_permissions_root-Local, create_private_dir-Local, sync-Local}
use spawnr.Host.Files.Known.{Facts, Knows, lacked, learned}
use spawnr.Host.Files.Trees.{
  WellFormed, Removable, absent-under, create_dir-Ends, remove_dir_all-nodes,
}
use spawnr.Host.Files.Looks.{Ends, >>=-Ends, or_undo-Ends}
use spawnr.Host.Storage.{
  Site, for_record, StorageDomain, environment, workspace, session, create, lay_out, write_marker,
  write_domain_marker, write_domain_markers, assert_private_directory, ownership_of, domain_of,
  owner_file, domain_file,
}
use spawnr.Host.Storage.Region.{tree_of, write_json_new-Local}
use spawnr.Host.Storage.Layout.{Laid, fresh, lay_out-Learns, Knows-Laid}
use spawnr.Host.Storage.Checks.{assert_private_directory-Looks}

module _ (s : Site) (r : MachineRecord) where
  abbrev root_path : PathBuf
  root_path = s.uuid_text r.id ∷ s.machines_dir

  inner : (x : Str) (a : PathBuf) → Inner (tree_of root_path) (x ∷ (a ++ root_path))
  unfolding path_eq
  inner x a = record {
    inner = under-append root_path (x ∷ a);
    not_root = path_eq-append (x ∷ a) [] root_path;
  }

  pub lay_out-Local : Local (tree_of root_path) (lay_out s (for_record s r) r s.machines_dir)
  unfolding lay_out for_record write_marker write_domain_markers write_domain_marker
  lay_out-Local =
      let z = tree_of root_path in
      let d = s.device in
      let write_domain = λ (x : Str) (domain : StorageDomain).
        write_json_new-Local s z s.domain_json (domain_file ∷ x ∷ root_path) (domain_of r domain)
          (inner domain_file (x ∷ [])) in
      >>=-Local z
        (>>=-Local z
          (>>=-Local z
            (>>=-Local z
              (>>=-Local z
                (>>=-Local z
                  (>>=-Local z (set_permissions_root-Local z d 448 (under_refl root_path)) (λ done.
                    create_private_dir-Local z d (codes "environment") root_path
                      (inner (codes "environment") []) refl))
                  (λ done.
                    create_private_dir-Local z d (codes "workspace") root_path
                      (inner (codes "workspace") []) refl))
                (λ done.
                  create_private_dir-Local z d (codes "session") root_path
                    (inner (codes "session") []) refl))
              (λ done.
                write_json_new-Local s z s.ownership_json (owner_file ∷ root_path) (ownership_of r)
                  (inner owner_file [])))
            (λ done.
              >>=-Local z
                (>>=-Local z (write_domain (codes "environment") environment)
                  (λ done. write_domain (codes "workspace") workspace))
                (λ done. write_domain (codes "session") session)))
          (λ done. sync-Local z d root_path))
        (λ done. sync-Local z d s.machines_dir)

  -- What the attempt to make the directory leaves.
  First : Nodes → Result Error (Unit {0}) → Nodes → Type 0
  First before (ok u) n =
      (before root_path ≡ none)
      × (n ≡ set root_path (some (directory s.device.directory_mode s.device.euid)) before)
  First before (err e) n = n ≡ before

  First-Ends :
      (t : Disk)
      → Ends
          (First t.nodes)
          ((assert_private_directory s s.machines_dir >> create_dir s.device root_path) t)
  unfolding First
  First-Ends t =
      >>=-Ends (assert_private_directory s s.machines_dir) (λ done. create_dir s.device root_path) t
        (First t.nodes) (λ e h. (assert_private_directory-Looks s s.machines_dir).same t)
        (λ a h.
          create_dir-Ends s.device root_path _ (First t.nodes)
            (λ e. (assert_private_directory-Looks s s.machines_dir).same t)
            (λ m g k. (
              ap (λ n. n root_path) (sym ((assert_private_directory-Looks s s.machines_dir).same t))
                  ∙ g,
              k
                  ∙ ap (set root_path (some (directory s.device.directory_mode s.device.euid)))
                      ((assert_private_directory-Looks s s.machines_dir).same t),
            )))

  -- The entries that a success and a failure leave.
  unfoldable pub CreateEnds : Nodes → Result Error (Unit {0}) → Nodes → Type 0
  CreateEnds before (ok u) n =
      (before root_path ≡ none)
      × Laid s (for_record s r) r n
      × ((q : PathBuf) → under root_path q ≡ false → n q ≡ before q)
  CreateEnds before (err e) n = (q : PathBuf) → n q ≡ before q

  fresh_known :
      (t t1 : Disk)
      → WellFormed t.nodes
      → t.nodes root_path ≡ none
      → t1.nodes ≡ set root_path (some (directory s.device.directory_mode s.device.euid)) t.nodes
      → Knows root_path (fresh s) t1
  fresh_known t t1 w h e =
      let free = λ (x : Str). w.above x root_path h in
      learned root_path [] (directory s.device.directory_mode s.device.euid) _ t t1
        (lacked root_path (codes "environment" ∷ []) _ t
          (lacked root_path (codes "workspace" ∷ []) _ t
            (lacked root_path (codes "session" ∷ []) (λ q. none) t (record { known = λ p n x. cc })
              (free (codes "session")))
            (free (codes "workspace")))
          (free (codes "environment")))
        e

  apart_root : (q : PathBuf) → under root_path q ≡ false → path_eq root_path q ≡ false
  apart_root q u = apart (tree_of root_path) root_path q (under_refl root_path) u

  After-ok :
      {k : Facts} (v : Result Error (Unit {0})) (t : Disk) {a : Unit {0}}
      → After (λ u. Unit {0}) (λ b. Knows root_path k) v t
      → v ≡ ok a
      → Knows root_path k t
  After-ok (ok u) t h e = h
  After-ok (err x) t h e = cc

  Laid-after :
      (t1 : Disk) {a : Unit {0}}
      → Knows root_path (fresh s) t1
      → (lay_out s (for_record s r) r s.machines_dir t1).0 ≡ ok a
      → Laid s (for_record s r) r (lay_out s (for_record s r) r s.machines_dir t1).1.nodes
  Laid-after t1 k e = Knows-Laid s r _ (After-ok _ _ ((lay_out-Learns s r).holds t1 k) e)

  -- The rest of the creation, from the state `t1` with the new directory.
  second-Ends :
      (t t1 : Disk)
      → WellFormed t.nodes
      → Removable s.device root_path
      → t.nodes root_path ≡ none
      → t1.nodes ≡ set root_path (some (directory s.device.directory_mode s.device.euid)) t.nodes
      → Ends (CreateEnds t.nodes) (
          or_undo
            (lay_out s (for_record s r) r s.machines_dir)
            (remove_dir_all s.device root_path)
            t1)
  unfolding CreateEnds
  second-Ends t t1 w d h e =
      let rooted =
        ap (λ n. is_directory (n root_path)) e ∙ ap is_directory (set-same root_path _ t.nodes) in
      let kept = lay_out-Local.local t1 rooted in
      let outside = λ (q : PathBuf) (u : under root_path q ≡ false).
        kept.frame q u ∙ ap (λ n. n q) e ∙ set-other root_path q _ t.nodes (apart_root q u) in
      or_undo-Ends (lay_out s (for_record s r) r s.machines_dir) (remove_dir_all s.device root_path)
        t1 (CreateEnds t.nodes) (λ a g. (h, Laid-after t1 (fresh_known t t1 w h e) g, outside))
        (λ x g q.
          ap (λ n. n q)
            (remove_dir_all-nodes s.device root_path
              (lay_out s (for_record s r) r s.machines_dir t1).1 d (kept.rooted rooted))
          ∙ elim (Bool-cases (under root_path q)) [
            | inl u ↦ without-under root_path q _ u ∙ sym (absent-under root_path q w h u)
            | inr u ↦ without-other root_path q (λ y. false) _ u ∙ outside q u
          ])

  First-of :
      (before : Nodes) (v : Result Error (Unit {0})) (n : Nodes) {a : Unit {0}}
      → First before v n
      → v ≡ ok a
      → (before root_path ≡ none)
        × (n ≡ set root_path (some (directory s.device.directory_mode s.device.euid)) before)
  unfolding First
  First-of before (ok u) n h e = h
  First-of before (err x) n h e = cc

  failed-First :
      (before : Nodes) (v : Result Error (Unit {0})) (n : Nodes) {x : Error}
      → First before v n
      → v ≡ err x
      → n ≡ before
  unfolding First
  failed-First before (ok u) n h e = cc
  failed-First before (err x) n h e = h

  unchanged_ends :
      (before : Nodes) (x : Error) (n : Nodes) → n ≡ before → CreateEnds before (err x) n
  unfolding CreateEnds
  unchanged_ends before x n e q = ap (λ f. f q) e

  -- From a well-formed tree of which this directory can be removed: a creation that succeeds found no
  -- entry at the machine's directory, leaves it complete and changes nothing else, and one that
  -- fails, at whatever operation, leaves every entry as it was.
  pub create-CreateEnds :
      (t : Disk)
      → WellFormed t.nodes
      → Removable s.device (for_record s r).root
      → Ends (CreateEnds t.nodes) (create s (for_record s r) r t)
  unfolding create for_record ◌>>=◌ give
  create-CreateEnds t w d =
      >>=-Ends (assert_private_directory s s.machines_dir >> create_dir s.device root_path)
        (λ done.
          or_undo (lay_out s (for_record s r) r s.machines_dir) (remove_dir_all s.device root_path))
        t (CreateEnds t.nodes)
        (λ x e. unchanged_ends t.nodes x _ (failed-First t.nodes _ _ (First-Ends t) e))
        (λ a e. let (h, g) = First-of t.nodes _ _ (First-Ends t) e in second-Ends t _ w d h g)

  unfoldable pub Refused : Nodes → Result Error (Unit {0}) → Nodes → Type 0
  Refused before (ok u) n = ⊥
  Refused before (err e) n = n ≡ before

  -- Whatever breaks off: where something stands at the machine's directory, the creation fails and
  -- changes nothing at all.
  pub create-existing :
      (t : Disk) (old : Node)
      → t.nodes (for_record s r).root ≡ some old
      → Ends (Refused t.nodes) (create s (for_record s r) r t)
  unfolding create for_record ◌>>=◌ give Refused
  create-existing t old h =
      >>=-Ends (assert_private_directory s s.machines_dir >> create_dir s.device root_path)
        (λ done.
          or_undo (lay_out s (for_record s r) r s.machines_dir) (remove_dir_all s.device root_path))
        t (Refused t.nodes) (λ x e. failed-First t.nodes _ _ (First-Ends t) e)
        (λ a e. elim (nothing_there (First-of t.nodes _ _ (First-Ends t) e).0 h) [ ])
    where
      nothing_there : {o : Option Node} {x : Node} → o ≡ none → o ≡ some x → ⊥
      nothing_there e f = cc
