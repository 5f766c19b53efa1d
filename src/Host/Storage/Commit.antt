-- ===== src/Host/Storage/Commit.antt =====
-- What the commit of a machine's storage leaves.
use spawnr.Prelude.{
  ◌≡◌, sym, ap, ◌∙◌, false, none, some, Result, ok, err, ensure, Bool-cases, inl, inr,
}
use spawnr.Prelude.Actions.{◌>>◌, give}
use spawnr.Host.State.{MachineRecord}
use spawnr.Host.Files.{PathBuf, Error, not_found, Nodes, Disk, under}
use spawnr.Host.Files.Calls.{Io, or_undo}
use spawnr.Host.Files.Places.{without-other, without-under}
use spawnr.Host.Files.Frame.{Local, >>=-Local, give-Local}
use spawnr.Host.Files.Trees.{WellFormed, Removable, absent-under}
use spawnr.Host.Files.Looks.{give-Looks, Ends, >>=-Ends, or_undo-Ends}
use spawnr.Host.Storage.{Site, for_record, create, remove}
use spawnr.Host.Storage.Disks.{default, create_disks, commit_machine_storage}
use spawnr.Host.Storage.Layout.{Laid}
use spawnr.Host.Storage.Creation.{CreateEnds, create-CreateEnds}
use spawnr.Host.Storage.Accepted.{Readable}
use spawnr.Host.Storage.Removal.{remove-nodes, is_directory-IsPrivate}
use spawnr.Host.Storage.Persistent.{
  top, disk_zone, environment-Place, workspace-Place, outside_tree, Owned-same, Laid-same,
}
use spawnr.Host.Storage.Formatted.{Leaves, then-Leaves, looks-Leaves}
use spawnr.Host.Storage.Made.{BothDisks, Rooted, create_disks-Leaves}
use spawnr.Host.Storage.Images.{create_disks-Local}

module _ (s : Site) (r : MachineRecord) where
  disks : PathBuf → Io (Unit {0})
  disks base =
      give (ensure s.mkfs_found not_found) >> create_disks s (for_record s r) r (some base) default

  disks-Local : (base : PathBuf) → Local (disk_zone s r) (disks base)
  unfolding disks for_record
  disks-Local base = >>=-Local (disk_zone s r) (give-Local (disk_zone s r) _) (λ done.
      create_disks-Local s (disk_zone s r) (for_record s r) (environment-Place s r)
        (workspace-Place s r) r (some base) default)

  disks-Leaves : (base : PathBuf) → Leaves (Rooted s r) (disks base) (BothDisks (for_record s r))
  unfolding disks
  disks-Leaves base =
      then-Leaves (looks-Leaves (give-Looks _)) (λ done. create_disks-Leaves s r base default)

  -- What the roll-back relies on: that nothing of it breaks off.
  pub record Undoable : Type 0 where
    pub removable : Removable s.device (for_record s r).root
    pub directory_readable : Readable s.device (for_record s r).root
    pub marker_readable : Readable s.device (for_record s r).owner_marker

  created_ok :
      (before : Nodes) (v : Result Error (Unit {0})) (n : Nodes) {a : Unit {0}}
      → CreateEnds s r before v n
      → v ≡ ok a
      → CreateEnds s r before (ok tt) n
  created_ok before (ok u) n h e = h
  created_ok before (err x) n h e = cc

  created_err :
      (before : Nodes) (v : Result Error (Unit {0})) (n : Nodes) {x : Error}
      → CreateEnds s r before v n
      → v ≡ err x
      → CreateEnds s r before (err x) n
  unfolding CreateEnds
  created_err before (ok u) n h e = cc
  created_err before (err y) n h e = h

  -- The entries that a commit leaves.
  unfoldable pub CommitEnds : Nodes → Result Error (Unit {0}) → Nodes → Type 0
  CommitEnds before (ok u) n =
      (before (top s r) ≡ none)
      × Laid s (for_record s r) r n
      × BothDisks (for_record s r) n
      × ((q : PathBuf) → under (top s r) q ≡ false → n q ≡ before q)
  CommitEnds before (err e) n = (q : PathBuf) → n q ≡ before q

  -- The disks are made, or the directory is removed again.
  disks-Ends :
      (before : Nodes) (t : Disk) (base : PathBuf)
      → WellFormed before
      → Undoable
      → CreateEnds s r before (ok tt) t.nodes
      → Ends (CommitEnds before) (or_undo (disks base) (remove s (for_record s r) r) t)
  unfolding CommitEnds CreateEnds for_record
  disks-Ends before t base w d (free, laid, frame) =
      let rooted = is_directory-IsPrivate laid.owned.directory in
      let u = (disks base t).1 in
      let kept = (disks-Local base).local t rooted in
      let outside = λ (q : PathBuf) (h : under (top s r) q ≡ false).
        kept.frame q (outside_tree s r q h) ∙ frame q h in
      or_undo-Ends (disks base) (remove s (for_record s r) r) t (CommitEnds before)
        (λ a e. (
          free,
          Laid-same s r t.nodes u.nodes kept.frame laid,
          (disks-Leaves base).leaves t rooted e,
          outside,
        ))
        (λ x e q.
          ap (λ f. f q)
            (remove-nodes s r u (Owned-same s r t.nodes u.nodes kept.frame laid.owned)
              d.directory_readable d.marker_readable d.removable)
          ∙ elim (Bool-cases (under (top s r) q)) [
            | inl h ↦ without-under (top s r) q u.nodes h ∙ sym (absent-under (top s r) q w free h)
            | inr h ↦ without-other (top s r) q (λ y. false) u.nodes h ∙ outside q h
          ])

  -- From a well-formed tree, where no removal and no read of the roll-back breaks off: a commit that
  -- succeeds found no entry at the machine's directory, leaves the complete layout of the record there,
  -- with two disks that have the magic of ext4, and changes nothing outside it, and one that fails, at
  -- whatever operation, has changed no entry.
  pub commit_machine_storage-CommitEnds :
      (t : Disk) (base : PathBuf)
      → WellFormed t.nodes
      → Undoable
      → Ends (CommitEnds t.nodes) (commit_machine_storage s r base t)
  unfolding commit_machine_storage disks CommitEnds CreateEnds
  commit_machine_storage-CommitEnds t base w d =
      >>=-Ends (create s (for_record s r) r)
        (λ done. or_undo (disks base) (remove s (for_record s r) r)) t (CommitEnds t.nodes)
        (λ x e. created_err t.nodes _ _ (create-CreateEnds s r t w d.removable) e)
        (λ a e.
          disks-Ends t.nodes _ base w d
            (created_ok t.nodes _ _ (create-CreateEnds s r t w d.removable) e))
